-- ===== src/Web/Generation/Outcomes.antt =====
-- How a run of a generation ends.
use jobilee.Prelude.{
  ℕ, zero, suc, ◌≡◌, ◌⊎◌, refl, Bool-cases, inl, inr, String, Bool, true, false, Option, none, some,
  List, [], ◌∷◌, ◌==◌, string_eq,
}
use jobilee.Effect.{Action}
use jobilee.Effect.Meets.{Meets, Meets-bind, Meets-catch, Meets-any}
use jobilee.Thrown.{Thrown}
use jobilee.Shared.Ai.{CreateTaskRequest}
use jobilee.Ai.Tasks.{TaskEvent}
use jobilee.Web.Sse.{SseMessage}
use jobilee.Web.Generation.{
  GenerationState, Settled, Hook, on_status, idle_state, or_else, handle_event, follow,
  await_via_stream, poll_once, poll_after_sleep, poll, await_via_polling, via_polling, streamed,
  await_outcome, finish, unless_dropped, generate, reason, give_up, run, max_polls,
}
use jobilee.Web.Generation.Rules.{cancelled-Meets, terminal-Meets}

module _ {W : Type 0} (hook : Hook W) (state : W → GenerationState) where
  -- `setState` applies its argument to the state.
  abbrev pub SetsState : Type 0
  SetsState =
      (f : GenerationState → GenerationState) (w : W) → state (hook.set_state f w) ≡ f (state w)

  -- Nothing was awaited to the end only if the run was cancelled.
  abbrev IsDropped : Option Settled → W → Type 0
  IsDropped o w = o ≡ none → hook.cancelled w ≡ true

  abbrev Anything : Thrown → W → Type 0
  Anything _ _ = Unit

  handle_event-IsDropped :
      (event : Option TaskEvent) (next : Action W (Option Settled))
      → ((w : W) → Meets (next w) IsDropped Anything)
      → (w : W) → Meets (handle_event hook event next w) IsDropped Anything
  handle_event-IsDropped none next h w = tt
  handle_event-IsDropped (some event) next h w =
      Meets-bind (on_status hook event.status) _ w (λ _ _. Unit) IsDropped Anything
        (Meets-any (on_status hook event.status w))
        (λ _ p _.
          terminal-Meets hook next p IsDropped Anything event.status event.result event.error
            (λ _. cc) (h p))

  follow-IsDropped :
      (messages : List SseMessage) (w : W) → Meets (follow hook messages w) IsDropped Anything
  unfolding follow
  follow-IsDropped [] w = tt
  follow-IsDropped (message ∷ messages) w = elim (Bool-cases (message.event == "task")) [
    | inl c ↦
        rw (follow, c)
          (handle_event-IsDropped (hook.parse_event message.data_text) (follow hook messages)
            (follow-IsDropped messages) w)
    | inr c ↦ rw (follow, c) (follow-IsDropped messages w)
  ]

  poll-IsDropped :
      (left : ℕ) (task_id : String) (w : W) → Meets (poll hook left task_id w) IsDropped Anything
  unfolding poll
  poll-IsDropped zero task_id w = cc
  poll-IsDropped (suc left) task_id w =
      let next = poll hook left task_id in
      cancelled-Meets hook (poll_after_sleep hook task_id next) w IsDropped Anything (λ c _. c)
        (Meets-bind hook.sleep _ w (λ _ _. Unit) IsDropped Anything (Meets-any (hook.sleep w))
          (λ _ p _.
            cancelled-Meets hook (poll_once hook task_id next) p IsDropped Anything (λ c _. c)
              (Meets-bind (hook.get_task task_id) _ p (λ _ _. Unit) IsDropped Anything
                (Meets-any (hook.get_task task_id p))
                (λ task q _.
                  Meets-bind (on_status hook task.status) _ q (λ _ _. Unit) IsDropped Anything
                    (Meets-any (on_status hook task.status q))
                    (λ _ r _.
                      terminal-Meets hook next r IsDropped Anything task.status task.result
                        task.error (λ _. cc) (poll-IsDropped left task_id r))))))

  await_outcome-IsDropped :
      (task_id : String) (w : W) → Meets (await_outcome hook task_id w) IsDropped Anything
  unfolding streamed await_via_stream via_polling await_via_polling
  await_outcome-IsDropped task_id w =
      Meets-catch (streamed hook task_id) _ w IsDropped Anything Anything
        (Meets-bind (hook.stream_events task_id) (follow hook) _ (λ _ _. Unit) IsDropped Anything
          (Meets-any (hook.stream_events task_id _)) (λ messages p _. follow-IsDropped messages p))
        (λ _ p _. elim (Bool-cases (hook.cancelled p)) [
          | inl c ↦ rw c (λ _. c)
          | inr c ↦ rw c (poll-IsDropped max_polls task_id _)
        ])

  -- What a run leaves behind with what it returns.
  abbrev pub Finished : Option String → W → Type 0
  Finished (some result) w = state w ≡ idle_state none
  Finished none w = (hook.cancelled w ≡ true) ⊎ ((e : String) × (state w ≡ idle_state (some e)))

  module _ (law : SetsState) where
    finish-Finished :
        (result error : Option String) (w : W)
        → Meets (finish hook result error w) Finished Anything
    finish-Finished (some r) error w = law (λ _. idle_state none) w
    finish-Finished none error w = inr (
      or_else error "Generation failed.",
      law (λ _. idle_state (some (or_else error "Generation failed."))) w,
    )

    unless_dropped-Finished :
        (outcome : Option Settled) (cancelled : Bool) (w : W)
        → hook.cancelled w ≡ cancelled
        → IsDropped outcome w
        → Meets (unless_dropped hook outcome cancelled w) Finished Anything
    unless_dropped-Finished outcome true w c d = inl c
    unless_dropped-Finished none false w c d = inl (d refl)
    unless_dropped-Finished (some outcome) false w c d =
        finish-Finished outcome.result outcome.error w

    generate-Finished :
        (body : CreateTaskRequest) (w : W) → Meets (generate hook body w) Finished Anything
    generate-Finished body w =
        Meets-bind (hook.create_task body) _ w (λ _ _. Unit) Finished Anything
          (Meets-any (hook.create_task body w))
          (λ task_id p _.
            Meets-bind (await_outcome hook task_id) _ p IsDropped Finished Anything
              (await_outcome-IsDropped task_id p)
              (λ outcome q d. unless_dropped-Finished outcome (hook.cancelled q) q refl d))

    give_up-Finished :
        (cause : Thrown) (cancelled : Bool) (w : W)
        → hook.cancelled w ≡ cancelled
        → Meets (give_up hook cause cancelled w) Finished (λ _ _. ⊥)
    give_up-Finished cause true w c = inl c
    give_up-Finished cause false w c =
        inr (reason hook cause, law (λ _. idle_state (some (reason hook cause))) w)

    -- A run of a generation never throws. If it returns a result, the hook's state is idle without an
    -- error; if it returns none, the run was cancelled, or the state is idle with an error to show.
    -- Either way it does not stay `running` unless it was cancelled.
    pub run-Finished :
        (body : CreateTaskRequest) (w : W) → Meets (run hook body w) Finished (λ _ _. ⊥)
    unfolding run
    run-Finished body w =
        Meets-catch (generate hook body) _ _ Finished Anything (λ _ _. ⊥) (generate-Finished body _)
          (λ cause p _. give_up-Finished cause (hook.cancelled p) p refl)
