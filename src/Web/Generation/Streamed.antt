-- ===== src/Web/Generation/Streamed.antt =====
-- From the events of a task in ai-service to the outcome in the browser, over the wire.
use jobilee.Prelude.{
  ◌≡◌, refl, sym, subst, ap, ◌∙◌, String, true, false, Option, some, List, [], ◌∷◌, ◌++◌, map, All,
  string_eq,
}
use jobilee.Effect.{Action}
use jobilee.Effect.Meets.{Meets, Meets-bind}
use jobilee.Shared.Ai.{TaskStatus, queued, running, succeeded, failed, is_terminal_status}
use jobilee.Ai.Tasks.{TaskEvent}
use jobilee.Ai.Service.{GenerationTask}
use jobilee.Ai.Stream.{
  Signal, emitted, tick, expired, disconnected, current, opened, receive_all, body_text,
}
use jobilee.Ai.Stream.Forwarding.{expected, opened-expected}
use jobilee.Web.Sse.{SseMessage, read_chunks}
use jobilee.Web.Sse.Chunks.{whole}
use jobilee.Web.Sse.Frames.{task_message, events_of, IsJson, read_chunks-body_text}
use jobilee.Web.Generation.{
  Settled, Hook, on_status, settled_by, unless_terminal, handle_event, follow,
}

-- a signal that does not end a stream
abbrev pub IsProgress : Signal → Type 0
IsProgress (emitted event) = is_terminal_status event.status ≡ false
IsProgress tick = Unit
IsProgress expired = ⊥
IsProgress disconnected = ⊥

unfoldable pub emitted_of : List Signal → List TaskEvent
emitted_of [] = []
emitted_of (emitted event ∷ xs) = event ∷ emitted_of xs
emitted_of (tick ∷ xs) = emitted_of xs
emitted_of (expired ∷ xs) = emitted_of xs
emitted_of (disconnected ∷ xs) = emitted_of xs

events_of-expected :
    (xs late : List Signal) (final : TaskEvent)
    → All IsProgress xs
    → is_terminal_status final.status ≡ true
    → events_of (expected (xs ++ emitted final ∷ late)) ≡ emitted_of xs ++ final ∷ []
unfolding events_of expected emitted_of
events_of-expected [] late final h t = rw (expected, t) refl
events_of-expected (emitted event ∷ xs) late final h t =
    rw (expected, h.0) (ap (◌∷◌ event) (events_of-expected xs late final h.1 t))
events_of-expected (tick ∷ xs) late final h t = events_of-expected xs late final h.1 t
events_of-expected (expired ∷ xs) late final h t = absurd h.0
events_of-expected (disconnected ∷ xs) late final h t = absurd h.0

emitted_of-progress :
    (xs : List Signal)
    → All IsProgress xs
    → All (λ e. is_terminal_status e.status ≡ false) (emitted_of xs)
unfolding emitted_of
emitted_of-progress [] h = tt
emitted_of-progress (emitted event ∷ xs) h = (h.0, emitted_of-progress xs h.1)
emitted_of-progress (tick ∷ xs) h = emitted_of-progress xs h.1
emitted_of-progress (expired ∷ xs) h = absurd h.0
emitted_of-progress (disconnected ∷ xs) h = absurd h.0

module _ {W : Type 0} (hook : Hook W) (stringify : TaskEvent → String) where
  -- The schema reads these events back from their JSON.
  abbrev pub ReadsBack : List TaskEvent → Type 0
  ReadsBack events = All (λ event. hook.parse_event (stringify event) ≡ some event) events

  abbrev message : TaskEvent → SseMessage
  message event = task_message (stringify event)

  on_status_returns :
      (status : TaskStatus) (w : W) → Meets (on_status hook status w) (λ _ _. Unit) (λ _ _. ⊥)
  unfolding on_status
  on_status_returns running w = tt
  on_status_returns queued w = tt
  on_status_returns succeeded w = tt
  on_status_returns failed w = tt

  abbrev SettledBy : TaskEvent → Option Settled → W → Type 0
  SettledBy event o w = o ≡ some (settled_by event.status event.result event.error)

  handle_event_lem :
      (event : TaskEvent) (next : Action W (Option Settled)) (w : W)
      (good : Option Settled → W → Type 0)
      → ((w : W)
          → Meets
              (unless_terminal hook event.status event.result event.error next w)
              good
              (λ _ _. ⊥))
      → Meets (handle_event hook (some event) next w) good (λ _ _. ⊥)
  handle_event_lem event next w good h =
      Meets-bind (on_status hook event.status) _ w (λ _ _. Unit) good (λ _ _. ⊥)
        (on_status_returns event.status w) (λ _ p _. h p)

  follow-final :
      (progress : List TaskEvent) (final : TaskEvent) (w : W)
      → All (λ e. is_terminal_status e.status ≡ false) progress
      → is_terminal_status final.status ≡ true
      → ReadsBack (progress ++ final ∷ [])
      → Meets (follow hook (map message (progress ++ final ∷ [])) w) (SettledBy final) (λ _ _. ⊥)
  unfolding follow
  follow-final [] final w h t back =
      rw back.0 (handle_event_lem final (follow hook []) w (SettledBy final) (λ p. rw t refl))
  follow-final (event ∷ progress) final w h t back = rw back.0 (
      handle_event_lem event (follow hook (map message (progress ++ final ∷ []))) w
        (SettledBy final) (λ p. rw h.0 (follow-final progress final p h.1 t back.1)))

  -- If a task is not settled when its stream opens, and then an event that settles it is published
  -- after other events and pings, then however the text of the stream is cut into chunks, the browser
  -- takes that event's outcome, and does not fall back to polling. `JSON.stringify` gives one line
  -- without space around it, which the schema
  -- reads back for the events of this stream.
  pub follow-settles :
      (task : GenerationTask) (xs late : List Signal) (final : TaskEvent) (chunks : List String)
      (w : W)
      → IsJson stringify
      → is_terminal_status task.status ≡ false
      → All IsProgress xs
      → is_terminal_status final.status ≡ true
      → ReadsBack (current task ∷ emitted_of xs ++ final ∷ [])
      → whole chunks
        ≡ body_text stringify (receive_all (opened task) (xs ++ emitted final ∷ late)).written
      → Meets
          (follow hook (read_chunks "" chunks).messages w)
          (λ o _. o ≡ some (settled_by final.status final.result final.error))
          (λ _ _. ⊥)
  unfolding events_of emitted_of
  follow-settles task xs late final chunks w json live progress settles back text =
      let events = emitted_of (emitted (current task) ∷ xs) in
      let e : events_of (receive_all (opened task) (xs ++ emitted final ∷ late)).written
          ≡ events ++ final ∷ [] =
        ap events_of (opened-expected task (xs ++ emitted final ∷ late))
        ∙ events_of-expected (emitted (current task) ∷ xs) late final (live, progress) settles in
      subst (λ ms. Meets (follow hook ms w) (SettledBy final) (λ _ _. ⊥))
        (sym (
          ap (λ d. d.messages) (read_chunks-body_text stringify json _ chunks text)
          ∙ ap (map message) e))
        (follow-final events final w
          (emitted_of-progress (emitted (current task) ∷ xs) (live, progress)) settles back)
