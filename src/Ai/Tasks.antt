-- ===== src/Ai/Tasks.antt =====
-- The rows of generation tasks, the events on them, and all that ai-service calls: its database,
-- Redis, the model's SDK and the two services that own the results. These are a parameter.
use jobilee.Prelude.{ℕ, String, Bool, Option, none, some, List}
use jobilee.Effect.{Action}
use jobilee.Shared.Ai.{TaskStatus, CreateTaskRequest}
use jobilee.Shared.Jobs.{ArtifactType}
use jobilee.Ai.Quota.{Redis, Now, refund}

-- a row of `generation_tasks`, without its time stamps; `request` is its type and its input
pub record TaskRow : Type 0 where
  pub id : String
  pub user_id : String
  pub request : CreateTaskRequest
  pub status : TaskStatus
  pub result : Option String
  pub error : Option String
  pub input_tokens : Option ℕ
  pub output_tokens : Option ℕ

-- the `data` of an update: a field that is `none` is left alone
pub record TaskPatch : Type 0 where
  pub status : Option TaskStatus
  pub error : Option (Option String)
  pub result : Option String
  pub input_tokens : Option ℕ
  pub output_tokens : Option ℕ

abbrev or_old {ℓ} : {A : Type ℓ} → Option A → A → A
or_old none old = old
or_old (some new) old = new

abbrev or_old_option : {A : Type 0} → Option A → Option A → Option A
or_old_option none old = old
or_old_option (some new) old = some new

unfoldable pub patch_task : TaskPatch → TaskRow → TaskRow
patch_task p row = record row {
  status = or_old p.status row.status;
  error = or_old p.error row.error;
  result = or_old_option p.result row.result;
  input_tokens = or_old_option p.input_tokens row.input_tokens;
  output_tokens = or_old_option p.output_tokens row.output_tokens;
}

-- `data: { status, error }`
abbrev pub to_status : TaskStatus → Option String → TaskPatch
to_status status error = record {
  status = some status;
  error = some error;
  result = none;
  input_tokens = none;
  output_tokens = none;
}

pub record TaskEvent : Type 0 where
  pub task_id : String
  pub status : TaskStatus
  pub result : Option String
  pub error : Option String

-- the model's answer
pub data StopReason : Type 0 where
  refusal pause_turn max_tokens end_turn : StopReason

pub data Block : Type 0 where
  text_block : String → Block
  other_block : Block

pub record Message : Type 0 where
  pub stop_reason : StopReason
  pub content : List Block
  pub input_tokens : ℕ
  pub output_tokens : ℕ

-- `Anthropic.MessageParam`: the user's turn is a list of UTF-16 code units
pub data Turn : Type 0 where
  user_turn : List ℕ → Turn
  assistant_turn : List Block → Turn

pub record ModelRequest : Type 0 where
  pub model : String
  pub max_tokens : ℕ
  pub system : String
  pub messages : List Turn
  pub web_search : Bool

pub record Environment (W : Type 0) : Type 0 where
  -- generationTask.findUnique({ where: { id } }) and update({ where: { id }, data })
  pub find_task : String → Action W (Option TaskRow)
  pub update_task : String → TaskPatch → Action W (Unit {0})
  -- generationTask.findFirst({ where: { id, userId } })
  pub find_owned : String → String → Action W (Option TaskRow)
  -- generationTask.create, with a new id
  pub create_task : String → CreateTaskRequest → Action W TaskRow
  -- `queue.enqueue({ taskId, userId, request })`
  pub enqueue : String → String → CreateTaskRequest → Action W (Unit {0})
  -- a publish on Redis
  pub publish : TaskEvent → Action W (Unit {0})
  -- `messages.stream(request)` and its `finalMessage()`
  pub stream : ModelRequest → Action W Message
  -- `jobs.putArtifact` and `resume.createTailored`, for a user and a job
  pub put_artifact : String → String → ArtifactType → String → Action W (Unit {0})
  pub create_tailored : String → String → String → String → Action W (Unit {0})
  pub redis : Redis W
  -- `new Date()`
  pub now : W → Now
  pub ai_daily_task_cap : ℕ
  pub ai_max_attempts : ℕ
  pub ai_model_generation : String

-- `refund`, which reads the clock itself
unfoldable pub refund_now : {W : Type 0} → Environment W → String → Action W (Unit {0})
unfolding refund
refund_now env user_id w = refund env.redis env.ai_daily_task_cap (env.now w) user_id w
