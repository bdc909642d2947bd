-- ===== src/Ai/Worker.antt =====
-- services/ai-service/src/queue/generation.worker.ts, `GenerationWorker.process`. The log lines
-- are left out.
pub mod Keeper
pub mod Delivered
pub mod Attempts
pub mod Settled
use Prim.Native.String.{◌++◌ as text_append}
use jobilee.Prelude.{ℕ, suc, String, Bool, ◌&&◌, Option, none, some, ltb, if◌then◌else◌}
use jobilee.Effect.{Action, pure, throw, catch, ignore_errors, ◌>>=◌}
use jobilee.Thrown.{Thrown, unrecoverable}
use jobilee.Shared.Ai.{TaskStatus, running, succeeded, failed, CreateTaskRequest}
use jobilee.Ai.Tasks.{TaskRow, TaskPatch, to_status, TaskEvent, Environment, refund_now}
use jobilee.Ai.Generation.{GenerationResult, generate, Failure, describe_failure}
use jobilee.Ai.Delivery.{deliver}

-- `GenerationJob`
pub record GenerationJob : Type 0 where
  pub task_id : String
  pub user_id : String
  pub request : CreateTaskRequest

abbrev pub to_result : GenerationResult → TaskPatch
to_result g = record {
  status = none;
  error = none;
  result = some g.text;
  input_tokens = some g.input_tokens;
  output_tokens = some g.output_tokens;
}

module _ {W : Type 0} (env : Environment W) (job : GenerationJob) where
  abbrev pub event : TaskStatus → Option String → Option String → TaskEvent
  event status result error = record {
    task_id = job.task_id;
    status = status;
    result = result;
    error = error;
  }

  -- a stored result, or a new generation, which is stored at once
  abbrev pub obtain : Option String → Action W String
  obtain (some result) = pure result
  obtain none = do
    g ← generate env job.request
    _ ← env.update_task job.task_id (to_result g)
    pure g.text

  abbrev pub finish : String → Action W (Unit {0})
  finish result = do
    _ ← deliver env job.user_id job.request result
    _ ← env.update_task job.task_id (to_status succeeded none)
    env.publish (event succeeded (some result) none)

  -- the `try` block
  unfoldable pub attempt : Option String → Action W (Unit {0})
  unfolding generate deliver
  attempt stored = do result ← obtain stored; finish result

  abbrev pub give_up : String → Action W (Unit {0})
  give_up message = do
    _ ← env.update_task job.task_id (to_status failed (some message))
    _ ← env.publish (event failed none (some message))
    _ ← ignore_errors (refund_now env job.user_id)
    throw (unrecoverable message)

  -- the `catch` block: `attemptsLeft > 0` is `attempts_made + 1 < AI_MAX_ATTEMPTS`
  unfoldable pub recover : ℕ → Thrown → Action W (Unit {0})
  unfolding describe_failure refund_now
  recover attempts_made error =
      let f = describe_failure error in
      if f.can_retry && ltb (suc attempts_made) env.ai_max_attempts
      then throw error
      else give_up f.message

  abbrev pub process_row : ℕ → Option TaskRow → Action W (Unit {0})
  process_row attempts_made none =
      throw (unrecoverable (text_append "task " (text_append job.task_id " no longer exists")))
  process_row attempts_made (some existing) = do
    _ ← env.update_task job.task_id (to_status running none)
    _ ← env.publish (event running none none)
    catch (attempt existing.result) (recover attempts_made)

  unfoldable pub process : ℕ → Action W (Unit {0})
  unfolding attempt recover
  process attempts_made = do
    existing ← env.find_task job.task_id
    process_row attempts_made existing
