-- ===== src/Ai/Service.antt =====
-- services/ai-service/src/tasks/tasks.service.ts, class `TasksService`.
pub mod Charges
use jobilee.Prelude.{ℕ, String, Option, none, some}
use jobilee.Effect.{Action, pure, throw, catch, ignore_errors, ◌>>=◌}
use jobilee.Thrown.{Thrown, app_error}
use jobilee.Shared.Errors.{not_found}
use jobilee.Shared.Ai.{TaskStatus, queued, failed, CreateTaskRequest}
use jobilee.Ai.Quota.{consume, remaining}
use jobilee.Ai.Tasks.{TaskRow, to_status, Environment, refund_now}

pub record CreateTaskResponse : Type 0 where
  pub task_id : String
  pub status : TaskStatus

-- `GenerationTask`, what a client sees of a row, without the time stamps
pub record GenerationTask : Type 0 where
  pub id : String
  pub user_id : String
  pub request : CreateTaskRequest
  pub status : TaskStatus
  pub result : Option String
  pub error : Option String

abbrev pub visible : TaskRow → GenerationTask
visible row = record {
  id = row.id;
  user_id = row.user_id;
  request = row.request;
  status = row.status;
  result = row.result;
  error = row.error;
}

module _ {W : Type 0} (env : Environment W) where
  -- `if (task) { update … .catch(() => undefined) }`
  abbrev pub mark_failed : Option TaskRow → Action W (Unit {0})
  mark_failed none = pure tt
  mark_failed (some task) =
      ignore_errors
        (env.update_task task.id (to_status failed (some "Could not queue this generation.")))

  -- the `catch` block, which throws its error again
  abbrev pub undo : {A : Type 0} → String → Option TaskRow → Thrown → Action W A
  undo user_id task error = do
    _ ← ignore_errors (refund_now env user_id)
    _ ← mark_failed task
    throw error

  -- the `try` block; an error of `create` finds no task, one of `enqueue` finds it
  abbrev pub enqueue_new : String → CreateTaskRequest → Action W TaskRow
  enqueue_new user_id body = do
    task ← catch (env.create_task user_id body) (undo user_id none)
    _ ← catch (env.enqueue task.id user_id body) (undo user_id (some task))
    pure task

  -- `consume`, which reads the clock itself; the source reads it once more for the expiry of a new key
  abbrev pub consume_now : String → Action W (Unit {0})
  consume_now user_id w = consume env.redis env.ai_daily_task_cap (env.now w) user_id w

  unfoldable pub create : String → CreateTaskRequest → Action W CreateTaskResponse
  unfolding consume refund_now
  create user_id body = do
    _ ← consume_now user_id
    task ← enqueue_new user_id body
    pure (record { task_id = task.id; status = queued })

  abbrev pub found : Option TaskRow → Action W GenerationTask
  found none = throw (app_error not_found "task not found")
  found (some task) = pure (visible task)

  unfoldable pub get : String → String → Action W GenerationTask
  get user_id id = do task ← env.find_owned user_id id; found task

  unfoldable pub remaining_quota : String → Action W ℕ
  unfolding remaining
  remaining_quota user_id w = remaining env.redis env.ai_daily_task_cap (env.now w) user_id w
