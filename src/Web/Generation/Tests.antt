-- ===== src/Web/Generation/Tests.antt =====
-- A generation that the stream settles, one that polling settles, and callers that refresh at once.
use jobilee.Prelude.{
  ℕ, suc, ◌≤◌, Bool-cases, inl, inr, ◌≡◌, refl, true, false, none, some, List, [], ◌∷◌, ◌++◌, ◌==◌,
  nat_eq, String, string_eq, if◌then◌else◌, trim, map,
}
use jobilee.Prelude.Text.Lines.{is_line}
use jobilee.Effect.{returned, threw}
use jobilee.Effect.Meets.{Meets}
use jobilee.Thrown.{other}
use jobilee.Shared.Ai.{queued, running, succeeded, CreateTaskRequest, research, is_terminal_status}
use jobilee.Ai.Tasks.{TaskEvent}
use jobilee.Ai.Service.{GenerationTask}
use jobilee.Ai.Stream.{current, opened, tick, disconnected, receive_all, body_text}
use jobilee.Web.Sse.{read_chunks}
use jobilee.Web.Sse.Chunks.{whole}
use jobilee.Web.Sse.Frames.{IsJson}
use jobilee.Web.Tokens.{Tab, get_refresh_token}
use jobilee.Web.Client.Flight.{
  idle as no_flight, landed, refreshes, called, ended, token_given, tokens_after, happen_all,
  calls-one_request,
}
use jobilee.Web.Generation.{
  GenerationState, Hook, idle_state, run, via_polling, settled_by, follow, await_via_polling,
}
use jobilee.Web.Client.{Browser}
use jobilee.Web.Generation.Browser.{View, Formats, hook_on}
use jobilee.Web.Generation.Polling.{CountsReads, await_via_polling-AtMost}
use jobilee.Web.Generation.Outcomes.{Finished, run-Finished}
use jobilee.Web.Generation.Streamed.{emitted_of, follow-settles}

abbrev tab : Tab
tab = record { access_token = none; stored = some "refresh"; storage_throws = false }

calls-one_request_example :
    happen_all
      (refreshes tab no_flight [] [] 0)
      (map called (1 ∷ 2 ∷ 3 ∷ []) ++ ended (token_given (some "t")) ∷ map called (4 ∷ []))
    ≡ refreshes
        (record tab { access_token = some "t" })
        (landed true)
        []
        ((1, true) ∷ (2, true) ∷ (3, true) ∷ (4, true) ∷ [])
        1
unfolding tokens_after get_refresh_token
calls-one_request_example =
    calls-one_request tab 0 [] 1 (2 ∷ 3 ∷ []) (4 ∷ []) (token_given (some "t")) refl

-- the state and the number of readings; the second reading finds the task settled
record Screen : Type 0 where
  shown : GenerationState
  reads : ℕ

abbrev body : CreateTaskRequest
body = research (record { job_id = "j"; company = "c"; title = "e"; jd = "d" })

abbrev task_at : ℕ → GenerationTask
task_at n = record {
  id = "t";
  user_id = "u";
  request = body;
  status = if n == 0 then running else succeeded;
  result = some "brief";
  error = none;
}

abbrev done_event : TaskEvent
done_event = record { task_id = "t"; status = succeeded; result = some "brief"; error = none }

-- a hook whose stream cannot be opened
abbrev hook : Hook Screen
hook = record {
  create_task = λ b w. returned "t" w;
  get_task = λ id w. returned (task_at w.reads) (record w { reads = suc w.reads });
  stream_events = λ id w. threw other w;
  sleep = λ w. returned tt w;
  parse_event = λ s. some done_event;
  cancelled = λ w. false;
  uncancel = λ w. w;
  set_state = λ f w. record w { shown = f w.shown };
}

abbrev screen : Screen
screen = record { shown = idle_state none; reads = 0 }

run_test : run hook body screen ≡ returned (some "brief") (record screen { reads = 2 })
unfolding run settled_by via_polling
run_test = refl

hook-CountsReads : CountsReads hook (λ w. w.reads)
hook-CountsReads = record { get_law = λ id w. refl; sleep_law = λ w. refl; set_law = λ f w. refl }

await_via_polling-AtMost_example :
    Meets (await_via_polling hook "t" screen) (λ _ w. w.reads ≤ 400) (λ _ w. w.reads ≤ 400)
await_via_polling-AtMost_example =
    await_via_polling-AtMost hook (λ w. w.reads) hook-CountsReads "t" screen

-- a browser whose requests all succeed, and a stream that settles the task in its second chunk
abbrev browser : Browser ℕ ℕ
browser = record {
  api_base = "/api";
  fetch = λ r n. returned (record { status = 200; body_text = "7" }) (suc n);
  json = λ r n. returned 7 n;
  stringify_refresh = λ t. t;
  access_token_of = λ j. none;
  is_api_error = λ j. none;
}

abbrev formats : Formats ℕ ℕ
formats = record {
  task_id_of = λ j. some "t";
  task_of = λ j. none;
  event_of = λ s. some done_event;
  stringify = λ b. "{}";
  read_body = λ r n. returned (some (": ping\n\nevent: task\nda" ∷ "ta: {1}\n\n" ∷ [])) n;
  sleep = λ n. returned tt n;
}

abbrev view : View ℕ
view = record { page = record { tab = tab; net = 0 }; state = idle_state none; cancelled = false }

run_in_page_test :
    run (hook_on browser formats) body view
    ≡ returned (some "brief") (record view { page = record { tab = tab; net = 2 } })
unfolding run settled_by via_polling hook_on
run_in_page_test = refl

run-Finished_example :
    Meets
      (run (hook_on browser formats) body view)
      (Finished (hook_on browser formats) (λ v. v.state))
      (λ _ _. ⊥)
unfolding hook_on
run-Finished_example = run-Finished (hook_on browser formats) (λ v. v.state) (λ f v. refl) body view

-- a task that waits, and one event that settles it
abbrev waiting_task : GenerationTask
waiting_task = record {
  id = "t";
  user_id = "u";
  request = body;
  status = queued;
  result = none;
  error = none;
}

abbrev stringify : TaskEvent → String
stringify event = if is_terminal_status event.status then "{1}" else "{0}"

abbrev reading_hook : Hook Screen
reading_hook = record hook {
  parse_event = λ s. if s == "{1}" then some done_event else some (current waiting_task);
}

stringify-IsJson : IsJson stringify
unfolding is_line trim
stringify-IsJson event = elim (Bool-cases (is_terminal_status event.status)) [
  | inl c ↦ rw c (refl, refl)
  | inr c ↦ rw c (refl, refl)
]

abbrev chunks : List String
chunks = "event: task\ndata: {0}\n\n: pi" ∷ "ng\n\nevent: task\ndata: {1}\n\n" ∷ []

follow-settles_example :
    Meets
      (follow reading_hook (read_chunks "" chunks).messages screen)
      (λ o _. o ≡ some (record { result = some "brief"; error = none }))
      (λ _ _. ⊥)
unfolding whole body_text opened receive_all settled_by emitted_of
follow-settles_example =
    follow-settles reading_hook stringify waiting_task (tick ∷ []) (disconnected ∷ []) done_event
      chunks screen stringify-IsJson refl (tt, tt) refl (refl, (refl, tt)) refl
