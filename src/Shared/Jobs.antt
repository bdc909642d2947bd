-- ===== src/Shared/Jobs.antt =====
-- packages/shared-types/src/jobs.ts: pipeline stages and the rows of a job.
use jobilee.Prelude.{
  ℕ, String, ◌≡◌, ◌↔◌, Bool, true, false, Option, List, [], ◌∷◌, filter, not, arith, Eq,
}

pub data Stage : Type 0 where
  saved applied recruiter_call phone_screen technical onsite offer rejected : Stage

-- `STAGES`, in board order
abbrev pub stages : List Stage
stages =
    saved ∷ applied ∷ recruiter_call ∷ phone_screen ∷ technical ∷ onsite ∷ offer ∷ rejected ∷ []

abbrev pub Stage-beq : Stage → Stage → Bool
Stage-beq saved saved = true
Stage-beq applied applied = true
Stage-beq recruiter_call recruiter_call = true
Stage-beq phone_screen phone_screen = true
Stage-beq technical technical = true
Stage-beq onsite onsite = true
Stage-beq offer offer = true
Stage-beq rejected rejected = true
Stage-beq _ _ = false

pub Stage-beq_iff : (a b : Stage) → (Stage-beq a b ≡ true) ↔ (a ≡ b)
Stage-beq_iff a b = ground arith

instance abbrev pub stage_eq : Eq Stage
stage_eq = record { beq = Stage-beq; beq_iff = Stage-beq_iff }

-- `ACTIVE_STAGES`
abbrev pub active_stages : List Stage
active_stages = filter (λ s. not (Stage-beq s rejected)) stages

pub data ArtifactType : Type 0 where
  research interview_prep : ArtifactType

abbrev pub ArtifactType-beq : ArtifactType → ArtifactType → Bool
ArtifactType-beq research research = true
ArtifactType-beq interview_prep interview_prep = true
ArtifactType-beq _ _ = false

pub ArtifactType-beq_iff : (a b : ArtifactType) → (ArtifactType-beq a b ≡ true) ↔ (a ≡ b)
ArtifactType-beq_iff a b = ground arith

instance abbrev pub artifact_type_eq : Eq ArtifactType
artifact_type_eq = record { beq = ArtifactType-beq; beq_iff = ArtifactType-beq_iff }

pub record StageEvent : Type 0 where
  pub id : String
  pub job_id : String
  pub stage : Stage
  pub at : ℕ

pub record JobArtifact : Type 0 where
  pub id : String
  pub job_id : String
  pub type : ArtifactType
  pub content : String
  pub created_at : ℕ

pub record Job : Type 0 where
  pub id : String
  pub user_id : String
  pub company : String
  pub title : String
  pub location : Option String
  pub link : Option String
  pub jd : String
  pub notes : String
  pub stage : Stage
  pub created_at : ℕ
  pub updated_at : ℕ

pub record JobDetail : Type 0 where
  pub job : Job
  pub open job use *
  pub events : List StageEvent
  pub artifacts : List JobArtifact

pub record CreateJobRequest : Type 0 where
  pub company : String
  pub title : String
  pub location : Option String
  pub link : Option String
  pub jd : String
  pub notes : String
  pub stage : Stage

-- `updateJobSchema`: every field is optional. A field that is `none` was left out of the body.
pub record UpdateJobRequest : Type 0 where
  pub company : Option String
  pub title : Option String
  pub location : Option String
  pub link : Option String
  pub jd : Option String
  pub notes : Option String
  pub stage : Option Stage
