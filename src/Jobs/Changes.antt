-- ===== src/Jobs/Changes.antt =====
-- The transition relation of the tables: every call of `JobsService` is one of six changes.
use jobilee.Prelude.{ℕ, String, ◌≡◌, inl, inr, some, find}
use jobilee.Effect.{Outcome, after}
use jobilee.Effect.Rules.{Ensures, Ensures-after}
use jobilee.Shared.Jobs.{
  Stage, ArtifactType, StageEvent, JobArtifact, Job, CreateJobRequest, UpdateJobRequest,
}
use jobilee.Jobs.Db.{JobsDb, Tables, Created, owned_by, created, Lists, Creates}
use jobilee.Jobs.Service.{new_job, list, create}
use jobilee.Jobs.Calls.{
  Call, list_jobs, create_job, get_job, delete_job, update_job, move_job, read_artifact,
  write_artifact, step, updated, deleted, moved, with_artifact, Updates, Removes, Moves,
  ReadsArtifact, WritesArtifact, Reads, update_lem, remove_lem, change_stage_lem, get_artifact_lem,
  put_artifact_lem, get_lem,
}

-- What a call of `user_id` may do. Each change of a job names an owned row.
pub data Change (user_id : String) (v v' : Tables) : Type 0 where
  keeps : v' ≡ v → Change user_id v v'
  creates :
      (body : CreateJobRequest) (job : Job) (e : StageEvent)
      → Created (new_job user_id body) v job e
      → v' ≡ created job e v
      → Change user_id v v'
  updates :
      (id : String) (body : UpdateJobRequest) (now : ℕ) (job : Job)
      → find (owned_by user_id id) v.jobs ≡ some job
      → v' ≡ updated id body now v
      → Change user_id v v'
  deletes :
      (id : String) (job : Job)
      → find (owned_by user_id id) v.jobs ≡ some job
      → v' ≡ deleted id v
      → Change user_id v v'
  moves :
      (id : String) (stage : Stage) (now : ℕ) (e : StageEvent) (job : Job)
      → find (owned_by user_id id) v.jobs ≡ some job
      → e.job_id ≡ id
      → e.stage ≡ stage
      → v' ≡ moved id stage now e v
      → Change user_id v v'
  writes :
      (id : String) (type : ArtifactType) (a : JobArtifact) (job : Job)
      → find (owned_by user_id id) v.jobs ≡ some job
      → a.job_id ≡ id
      → a.type ≡ type
      → v' ≡ with_artifact id type a v
      → Change user_id v v'

module _ {W : Type 0} (db : JobsDb W) where
  Ensures-Change :
      {A : Type 0} (u : String) (w : W) (o : Outcome W A) (good : A → W → Type 0)
      → Ensures o good (λ w'. db.view w' ≡ db.view w)
      → ((a : A) (w' : W) → good a w' → Change u (db.view w) (db.view w'))
      → Change u (db.view w) (db.view (after o))
  Ensures-Change u w o good h k =
      Ensures-after o good (λ w'. db.view w' ≡ db.view w) (λ w'. Change u (db.view w) (db.view w'))
        h k (λ w' e. keeps e)

  -- Every call, whether it answers or fails, makes one of the changes: a job is updated, deleted or
  -- moved, or gets an artifact, only if the caller owns it, and a move writes its history entry.
  pub step-Change :
      (user_id : String) (c : Call) (w : W)
      → Change user_id (db.view w) (db.view (step db user_id c w))
  unfolding step list create
  step-Change u list_jobs w =
      Ensures-Change u w _ (λ js w'. Lists u (db.view w) (db.view w') js) (db.find_jobs_law u w)
        (λ _ w' p. keeps p.0)
  step-Change u (create_job body) w =
      Ensures-Change u w _ (λ job w'. Creates (new_job u body) (db.view w) (db.view w') job)
        (db.create_job_law (new_job u body) w) (λ job w' (e, made, v). creates body job e made v)
  step-Change u (get_job id) w =
      Ensures-Change u w _ (Reads db u id w) (get_lem db u id w) (λ _ w' p. keeps p.3)
  step-Change u (delete_job id) w =
      Ensures-Change u w _ (Removes db u id w) (remove_lem db u id w)
        (λ _ w' (job, owned, v). deletes id job owned v)
  step-Change u (update_job id body) w =
      Ensures-Change u w _ (Updates db u id w body) (update_lem db u id w body)
        (λ _ w' (job, owned, now, v). updates id body now job owned v)
  step-Change u (move_job id stage) w =
      Ensures-Change u w _ (Moves db u id w stage) (change_stage_lem db u id w stage)
        (λ _ w' (job, owned, cases). elim cases [
          | inl (_, _, v) ↦ keeps v
          | inr (_, now, e, of_job, at_stage, _, v) ↦
              moves id stage now e job owned of_job at_stage v
        ])
  step-Change u (read_artifact id type) w =
      Ensures-Change u w _ (ReadsArtifact db u id w type) (get_artifact_lem db u id w type)
        (λ _ w' p. keeps p.3)
  step-Change u (write_artifact id type content) w =
      Ensures-Change u w _ (WritesArtifact db u id w type content)
        (put_artifact_lem db u id w type content)
        (λ a w' (job, owned, of_job, of_type, c, v). writes id type a job owned of_job of_type v)
