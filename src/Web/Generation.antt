-- ===== src/Web/Generation.antt =====
-- apps/web/src/api/ai.ts: a generation as the browser follows it, by the event stream and else by
-- polling. Its requests, the timer and the hook's state are parameters.
pub mod Rules
mod Tests
pub mod Polling
pub mod Outcomes
pub mod Streamed
pub mod Browser
use jobilee.Prelude.{
  ℕ, zero, suc, String, Bool, true, false, Option, none, some, List, [], ◌∷◌, ◌==◌, string_eq,
  if◌then◌else◌,
}
use jobilee.Effect.{Action, Outcome, returned, threw, pure, throw, catch, ◌>>=◌}
use jobilee.Thrown.{Thrown, request_error, other, zod_error}
use jobilee.Shared.Ai.{
  TaskStatus, queued, running, succeeded, failed, is_terminal_status, CreateTaskRequest,
}
use jobilee.Ai.Tasks.{TaskEvent}
use jobilee.Ai.Service.{GenerationTask}
use jobilee.Web.Sse.{SseMessage}

pub data Phase : Type 0 where
  idle waiting generating : Phase

pub data Transport : Type 0 where
  sse polling : Transport

pub record GenerationState : Type 0 where
  pub running_now : Bool
  pub error : Option String
  pub phase : Phase
  pub transport : Option Transport

-- interface `Outcome`
pub record Settled : Type 0 where
  pub result : Option String
  pub error : Option String

-- What the hook runs on: `createTask`, `getTask`, the messages that a task's stream delivers before it
-- ends or fails, the timer of `POLL_INTERVAL_MS`, the reading of an event's JSON by its schema, the
-- ref `cancelled`, and `setState`.
pub record Hook (W : Type 0) : Type 0 where
  pub create_task : CreateTaskRequest → Action W String
  pub get_task : String → Action W GenerationTask
  pub stream_events : String → Action W (List SseMessage)
  pub sleep : Action W (Unit {0})
  pub parse_event : String → Option TaskEvent
  pub cancelled : W → Bool
  pub uncancel : W → W
  pub set_state : (GenerationState → GenerationState) → W → W

abbrev pub max_polls : ℕ
max_polls = 400

abbrev pub or_else : Option String → String → String
or_else none s = s
or_else (some t) s = t

-- `status === "SUCCEEDED" ? … : …`
unfoldable pub settled_by : TaskStatus → Option String → Option String → Settled
settled_by succeeded result error = record { result = some (or_else result ""); error = none }
settled_by queued result error = record {
  result = none;
  error = some (or_else error "Generation failed.");
}
settled_by running result error = record {
  result = none;
  error = some (or_else error "Generation failed.");
}
settled_by failed result error = record {
  result = none;
  error = some (or_else error "Generation failed.");
}

abbrev pub idle_state : Option String → GenerationState
idle_state error = record { running_now = false; error = error; phase = idle; transport = none }

abbrev pub too_long : Settled
too_long = record {
  result = none;
  error = some "This is taking longer than expected. Check back shortly.";
}

module _ {W : Type 0} (hook : Hook W) where
  abbrev pub set : (GenerationState → GenerationState) → Action W (Unit {0})
  set f w = returned tt (hook.set_state f w)

  abbrev pub is_cancelled : Action W Bool
  is_cancelled w = returned (hook.cancelled w) w

  -- `onStatus`
  unfoldable pub on_status : TaskStatus → Action W (Unit {0})
  on_status running = set (λ s. record s { phase = generating })
  on_status queued = pure tt
  on_status succeeded = pure tt
  on_status failed = pure tt

  abbrev pub unless_terminal :
      TaskStatus
      → Option String
      → Option String
      → Action W (Option Settled)
      → Action W (Option Settled)
  unless_terminal status result error next =
      if is_terminal_status status then pure (some (settled_by status result error)) else next

  abbrev pub handle_event : Option TaskEvent → Action W (Option Settled) → Action W (Option Settled)
  handle_event none next = throw zod_error
  handle_event (some event) next = do
    _ ← on_status event.status
    unless_terminal event.status event.result event.error next

  -- the `for await` of `awaitViaStream`
  unfoldable pub follow : List SseMessage → Action W (Option Settled)
  unfolding on_status settled_by
  follow [] = throw other
  follow (message ∷ messages) =
      let rest = follow messages in
      if message.event == "task"
      then handle_event (hook.parse_event message.data_text) rest
      else rest

  -- `awaitViaStream`
  unfoldable pub await_via_stream : String → Action W (Option Settled)
  unfolding follow
  await_via_stream task_id = do messages ← hook.stream_events task_id; follow messages

  abbrev pub unless_cancelled : Action W (Option Settled) → Bool → Action W (Option Settled)
  unless_cancelled next cancelled = if cancelled then pure none else next

  abbrev pub poll_once : String → Action W (Option Settled) → Action W (Option Settled)
  poll_once task_id next = do
    task ← hook.get_task task_id
    _ ← on_status task.status
    unless_terminal task.status task.result task.error next

  abbrev pub poll_after_sleep : String → Action W (Option Settled) → Action W (Option Settled)
  poll_after_sleep task_id next = do
    _ ← hook.sleep
    cancelled ← is_cancelled
    unless_cancelled (poll_once task_id next) cancelled

  -- the loop of `awaitViaPolling`, with the polls that are left
  unfoldable pub poll : ℕ → String → Action W (Option Settled)
  unfolding on_status settled_by
  poll zero task_id = pure (some too_long)
  poll (suc left) task_id =
      let rest = poll left task_id in
      do cancelled ← is_cancelled; unless_cancelled (poll_after_sleep task_id rest) cancelled

  -- `awaitViaPolling`
  unfoldable pub await_via_polling : String → Action W (Option Settled)
  unfolding poll
  await_via_polling task_id = poll max_polls task_id

  unfoldable pub via_polling : String → Action W (Option Settled)
  unfolding await_via_polling
  via_polling task_id = do
    _ ← set (λ s. record s { transport = some polling })
    await_via_polling task_id

  -- the inner `catch`
  abbrev pub fall_back : String → Bool → Action W (Option Settled)
  fall_back task_id cancelled = if cancelled then pure none else via_polling task_id

  unfoldable pub streamed : String → Action W (Option Settled)
  unfolding await_via_stream
  streamed task_id = do _ ← set (λ s. record s { transport = some sse }); await_via_stream task_id

  abbrev pub await_outcome : String → Action W (Option Settled)
  await_outcome task_id = catch (streamed task_id) (λ _. do c ← is_cancelled; fall_back task_id c)

  abbrev pub finish : Option String → Option String → Action W (Option String)
  finish (some result) error = do _ ← set (λ _. idle_state none); pure (some result)
  finish none error = do
    _ ← set (λ _. idle_state (some (or_else error "Generation failed.")))
    pure none

  abbrev pub unless_dropped : Option Settled → Bool → Action W (Option String)
  unless_dropped outcome true = pure none
  unless_dropped none false = pure none
  unless_dropped (some outcome) false = finish outcome.result outcome.error

  -- the outer `try`
  abbrev pub generate : CreateTaskRequest → Action W (Option String)
  generate body = do
    task_id ← hook.create_task body
    outcome ← await_outcome task_id
    cancelled ← is_cancelled
    unless_dropped outcome cancelled

  abbrev pub reason : Thrown → String
  reason (request_error e) = e.message
  reason _ = "Could not start generation."

  -- the outer `catch`
  abbrev pub give_up : Thrown → Bool → Action W (Option String)
  give_up cause true = pure none
  give_up cause false = do _ ← set (λ _. idle_state (some (reason cause))); pure none

  abbrev pub start : Action W (Unit {0})
  start w = returned tt (
      hook.set_state
        (λ _. record { running_now = true; error = none; phase = waiting; transport = none })
        (hook.uncancel w))

  -- `run`
  unfoldable pub run : CreateTaskRequest → Action W (Option String)
  unfolding streamed
  run body = do _ ← start; catch (generate body) (λ cause. do c ← is_cancelled; give_up cause c)
