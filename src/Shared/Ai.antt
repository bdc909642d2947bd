-- ===== src/Shared/Ai.antt =====
-- packages/shared-types/src/ai.ts: generation tasks and their inputs.
use jobilee.Prelude.{String, Bool, true, false}

pub data TaskStatus : Type 0 where
  queued running succeeded failed : TaskStatus

-- `isTerminalStatus`
abbrev pub is_terminal_status : TaskStatus → Bool
is_terminal_status succeeded = true
is_terminal_status failed = true
is_terminal_status _ = false

-- `ResearchInput` and `InterviewPrepInput`
pub record BriefInput : Type 0 where
  pub job_id : String
  pub company : String
  pub title : String
  pub jd : String

pub record ResumeTailorInput : Type 0 where
  pub job_id : String
  pub company : String
  pub title : String
  pub jd : String
  pub base_resume : String

-- `CreateTaskRequest`, the union discriminated by `type`
pub data CreateTaskRequest : Type 0 where
  research interview_prep : BriefInput → CreateTaskRequest
  resume_tailor : ResumeTailorInput → CreateTaskRequest
