-- ===== src/Ai/Controller.antt =====
-- services/ai-service/src/tasks/tasks.controller.ts: what each route checks and calls.
use jobilee.Prelude.{ℕ, String, Bool, Option, if◌then◌else◌}
use jobilee.Effect.{Action, throw, ◌>>=◌}
use jobilee.Thrown.{http_exception}
use jobilee.Shared.Ai.{CreateTaskRequest}
use jobilee.ServiceKit.ZodPipe.{transform}
use jobilee.Ai.Tasks.{Environment}
use jobilee.Ai.Service
use jobilee.Ai.Service.{CreateTaskResponse, GenerationTask}

-- `is_uuid` is the test of `ParseUUIDPipe`
module _ {W R : Type 0} (env : Environment W) (schema : R → Option CreateTaskRequest)
    (is_uuid : String → Bool) where
  unfoldable pub create_task_route : String → R → Action W CreateTaskResponse
  unfolding Service.create
  create_task_route user_id raw = do body ← transform schema raw; Service.create env user_id body

  unfoldable pub quota_route : String → Action W ℕ
  unfolding Service.remaining_quota
  quota_route user_id = Service.remaining_quota env user_id

  unfoldable pub get_task_route : String → String → Action W GenerationTask
  unfolding Service.get
  get_task_route user_id raw =
      if is_uuid raw
      then Service.get env user_id raw
      else throw (http_exception 400 "Validation failed (uuid is expected)")
