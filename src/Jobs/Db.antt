-- ===== src/Jobs/Db.antt =====
-- What jobs-service relies on of its database. Prisma and PostgreSQL are a parameter: the record
-- `JobsDb` has an operation for each query of jobs.service.ts, with what the documentation
-- promises of it. `view` is the committed content of the three tables of
-- services/jobs-service/prisma/schema.prisma, in order of insertion. A query that throws changes
-- nothing. Other clients do not write between two queries of one call.
use jobilee.Prelude.{
  ℕ, ◌≤◌, String, ◌≡◌, ◌≢◌, Bool, ◌&&◌, not, Option, none, some, List, [], ◌∷◌, ◌++◌, map, filter,
  find, All, ◌==◌, string_eq, if◌then◌else◌,
}
use mathlib.Core.List.{Perm, Pairwise}
use jobilee.Effect.{Action}
use jobilee.Effect.Rules.{Ensures}
use jobilee.Shared.Jobs.{
  Stage, ArtifactType, artifact_type_eq, StageEvent, JobArtifact, Job, JobDetail,
}

pub record Tables : Type 0 where
  pub jobs : List Job
  pub events : List StageEvent
  pub artifacts : List JobArtifact

-- the `data` of `job.update`: a field that is `none` is left alone
pub record JobPatch : Type 0 where
  pub company : Option String
  pub title : Option String
  pub location : Option (Option String)
  pub link : Option (Option String)
  pub jd : Option String
  pub notes : Option String
  pub stage : Option Stage

abbrev pub given {ℓ} : {A : Type ℓ} → Option A → A → A
given none old = old
given (some new) old = new

-- an update of a row, at the time `now`
unfoldable pub patch_job : JobPatch → ℕ → Job → Job
patch_job p now j = record j {
  company = given p.company j.company;
  title = given p.title j.title;
  location = given p.location j.location;
  link = given p.link j.link;
  jd = given p.jd j.jd;
  notes = given p.notes j.notes;
  stage = given p.stage j.stage;
  updated_at = now;
}

abbrev pub update_where {ℓ} : {A : Type ℓ} → (A → Bool) → (A → A) → List A → List A
update_where p f = map (λ a. if p a then f a else a)

-- `id` is the primary key: at most one row has it. `where: { id }` and `where: { id, userId }`
abbrev pub has_id : String → Job → Bool
has_id id j = j.id == id

abbrev pub owned_by : String → String → Job → Bool
owned_by user_id id j = j.id == id && j.user_id == user_id

abbrev pub is_of : String → ArtifactType → JobArtifact → Bool
is_of job_id type a = a.job_id == job_id && a.type == type

-- `orderBy: { createdAt: "desc" }`
abbrev pub NewestFirst : List Job → Type 0
NewestFirst = Pairwise (λ a b. b.created_at ≤ a.created_at)

-- a job with its `include`d rows, the events in order of time
abbrev pub Details : Option Job → Tables → Option JobDetail → Type 0
Details none v none = Unit
Details (some j) v (some d) =
    (d.job ≡ j)
    × Perm d.events (filter (λ e. e.job_id == j.id) v.events)
    × Perm d.artifacts (filter (λ a. a.job_id == j.id) v.artifacts)
    × Pairwise (λ (e f : StageEvent). e.at ≤ f.at) d.events
Details _ v _ = ⊥

-- the `data` of `job.create`, with the stage of its nested `events: { create }`
pub record NewJob : Type 0 where
  pub user_id : String
  pub company : String
  pub title : String
  pub location : Option String
  pub link : Option String
  pub jd : String
  pub notes : String
  pub stage : Stage
  pub event_stage : Stage

-- the rows of `job.create` and of its nested `events: { create }`
pub record Created (data_value : NewJob) (v : Tables) (job : Job) (e : StageEvent) : Type 0 where
  pub user_id_eq : job.user_id ≡ data_value.user_id
  pub company_eq : job.company ≡ data_value.company
  pub title_eq : job.title ≡ data_value.title
  pub location_eq : job.location ≡ data_value.location
  pub link_eq : job.link ≡ data_value.link
  pub jd_eq : job.jd ≡ data_value.jd
  pub notes_eq : job.notes ≡ data_value.notes
  pub stage_eq : job.stage ≡ data_value.stage
  pub event_job : e.job_id ≡ job.id
  pub event_stage : e.stage ≡ data_value.event_stage
  -- the primary key and the foreign keys
  pub fresh_job : All (λ (j : Job). j.id ≢ job.id) v.jobs
  pub fresh_event : All (λ (f : StageEvent). f.job_id ≢ job.id) v.events
  pub fresh_artifact : All (λ (a : JobArtifact). a.job_id ≢ job.id) v.artifacts

-- the tables with a new job and its opening event
abbrev pub created : Job → StageEvent → Tables → Tables
created job e v = record v { jobs = v.jobs ++ job ∷ []; events = v.events ++ e ∷ [] }

-- what `job.findMany` and `job.create` promise, from tables `v` to tables `v'`
abbrev pub Lists : String → Tables → Tables → List Job → Type 0
Lists user_id v v' js =
    (v' ≡ v) × Perm js (filter (λ j. j.user_id == user_id) v.jobs) × NewestFirst js

abbrev pub Creates : NewJob → Tables → Tables → Job → Type 0
Creates data_value v v' job = (e : StageEvent) × Created data_value v job e × (v' ≡ created job e v)

pub record JobsDb (W : Type 0) : Type 0 where
  pub view : W → Tables
  -- job.findFirst({ where: { id, userId } })
  pub find_job : String → String → Action W (Option Job)
  pub find_job_law :
      (user_id id : String) (w : W)
      → Ensures
          (find_job user_id id w)
          (λ o w'. (view w' ≡ view w) × (o ≡ find (owned_by user_id id) (view w).jobs))
          (λ w'. view w' ≡ view w)
  -- job.findMany({ where: { userId }, orderBy: { createdAt: "desc" } })
  pub find_jobs : String → Action W (List Job)
  pub find_jobs_law :
      (user_id : String) (w : W)
      → Ensures
          (find_jobs user_id w)
          (λ js w'. Lists user_id (view w) (view w') js)
          (λ w'. view w' ≡ view w)
  -- job.findFirst({ where: { id, userId }, include })
  pub find_job_detail : String → String → Action W (Option JobDetail)
  pub find_job_detail_law :
      (user_id id : String) (w : W)
      → Ensures
          (find_job_detail user_id id w)
          (λ o w'.
            (view w' ≡ view w) × Details (find (owned_by user_id id) (view w).jobs) (view w) o)
          (λ w'. view w' ≡ view w)
  -- job.create
  pub create_job : NewJob → Action W Job
  pub create_job_law :
      (data_value : NewJob) (w : W)
      → Ensures
          (create_job data_value w)
          (λ job w'. Creates data_value (view w) (view w') job)
          (λ w'. view w' ≡ view w)
  -- job.update({ where: { id }, data })
  pub update_job : String → JobPatch → Action W Job
  pub update_job_law :
      (id : String) (patch : JobPatch) (w : W)
      → Ensures
          (update_job id patch w)
          (λ job w'.
            (now : ℕ) × (find (has_id id) (view w').jobs ≡ some job)
            × (view w' ≡ record (view w) {
              jobs = update_where (has_id id) (patch_job patch now) (view w).jobs;
            }))
          (λ w'. view w' ≡ view w)
  -- job.delete({ where: { id } }); the foreign keys cascade
  pub delete_job : String → Action W (Unit {0})
  pub delete_job_law :
      (id : String) (w : W)
      → Ensures
          (delete_job id w)
          (λ _ w'. view w' ≡ record {
            jobs = filter (λ j. not (j.id == id)) (view w).jobs;
            events = filter (λ e. not (e.job_id == id)) (view w).events;
            artifacts = filter (λ a. not (a.job_id == id)) (view w).artifacts;
          })
          (λ w'. view w' ≡ view w)
  -- $transaction([stageEvent.create({ data: { jobId, stage } }), job.update({ where: { id }, data })])
  pub move_job : String → Stage → JobPatch → Action W Job
  pub move_job_law :
      (id : String) (stage : Stage) (patch : JobPatch) (w : W)
      → Ensures
          (move_job id stage patch w)
          (λ job w'.
            (now : ℕ) × (e : StageEvent) × (e.job_id ≡ id)
            × (e.stage ≡ stage)
            × (find (has_id id) (view w').jobs ≡ some job)
            × (view w' ≡ record (view w) {
              jobs = update_where (has_id id) (patch_job patch now) (view w).jobs;
              events = (view w).events ++ e ∷ [];
            }))
          (λ w'. view w' ≡ view w)
  -- jobArtifact.findUnique({ where: { jobId_type: { jobId, type } } })
  pub find_artifact : String → ArtifactType → Action W (Option JobArtifact)
  pub find_artifact_law :
      (id : String) (type : ArtifactType) (w : W)
      → Ensures
          (find_artifact id type w)
          (λ o w'. (view w' ≡ view w) × (o ≡ find (is_of id type) (view w).artifacts))
          (λ w'. view w' ≡ view w)
  -- jobArtifact.upsert({ where: { jobId_type: … }, create, update: { content } })
  pub upsert_artifact : String → ArtifactType → String → Action W JobArtifact
  pub upsert_artifact_law :
      (id : String) (type : ArtifactType) (content : String) (w : W)
      → Ensures
          (upsert_artifact id type content w)
          (λ a w'.
            (a.job_id ≡ id)
            × (a.type ≡ type)
            × (a.content ≡ content)
            × (view w' ≡ record (view w) {
              artifacts = elim (find (is_of id type) (view w).artifacts) [
                | none ↦ (view w).artifacts ++ a ∷ []
                | some _ ↦ update_where (is_of id type) (λ _. a) (view w).artifacts
              ];
            }))
          (λ w'. view w' ≡ view w)
