-- ===== src/Shared/Resume.antt =====
-- packages/shared-types/src/resume.ts: uploaded files and what may be uploaded.
use jobilee.Prelude.{ℕ, ◌*◌, String, Option, List, [], ◌∷◌}

pub record ResumeFile : Type 0 where
  pub id : String
  pub user_id : String
  pub job_id : Option String
  pub filename : String
  pub content_type : String
  pub size : ℕ
  pub object_key : String
  pub created_at : ℕ

abbrev pub resume_upload_max_bytes : ℕ
resume_upload_max_bytes = 10 * 1024 * 1024

abbrev pub resume_upload_content_types : List String
resume_upload_content_types =
    "application/pdf" ∷ "application/vnd.openxmlformats-officedocument.wordprocessingml.document"
    ∷ "application/msword" ∷ "text/plain" ∷ "text/markdown" ∷ []

pub record BaseResume : Type 0 where
  pub id : String
  pub user_id : String
  pub content : String
  pub updated_at : ℕ

pub record TailoredResume : Type 0 where
  pub id : String
  pub user_id : String
  pub job_id : String
  pub version : ℕ
  pub gap_analysis : String
  pub content : String
  pub created_at : ℕ

pub record CreateTailoredResumeRequest : Type 0 where
  pub job_id : String
  pub gap_analysis : String
  pub content : String
