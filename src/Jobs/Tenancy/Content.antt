-- ===== src/Jobs/Tenancy/Content.antt =====
-- What the tables hold of one user, and that a change of what another user owns leaves it alone.
use jobilee.Prelude.{
  ℕ, String, ◌≡◌, ◌≢◌, refl, sym, ◌∙◌, inl, inr, Bool, false, not, none, some, List, [], ◌∷◌, ◌++◌,
  filter, filter-cong, filter-filter, filter-append_dropped, filter-write, Option-cases, find, any,
  All, All-imp, arith, eq_iff, Bool-cases, ◌==◌, string_eq,
}
use jobilee.Shared.Jobs.{
  Stage, ArtifactType, StageEvent, JobArtifact, Job, CreateJobRequest, UpdateJobRequest,
}
use jobilee.Jobs.Db.{
  Tables, Created, JobPatch, created, owned_by, has_id, update_where, patch_job, is_of,
}
use jobilee.Jobs.Service.{new_job, editable, to_stage}
use jobilee.Jobs.Calls.{updated, deleted, moved, with_artifact}

-- no two jobs have one primary key
abbrev pub UniqueIds : List Job → Type 0
UniqueIds [] = Unit
UniqueIds (j ∷ js) = All (λ (k : Job). k.id ≢ j.id) js × UniqueIds js

-- the row of a job that belongs to `user_id`
abbrev belongs : String → List Job → String → Bool
belongs user_id jobs id = any (owned_by user_id id) jobs

-- All that the tables hold of one user: the jobs, and the events and artifacts of those jobs.
pub content : String → Tables → Tables
content user_id v = record {
  jobs = filter (λ j. j.user_id == user_id) v.jobs;
  events = filter (λ e. belongs user_id v.jobs e.job_id) v.events;
  artifacts = filter (λ a. belongs user_id v.jobs a.job_id) v.artifacts;
}

-- every row with the id has the owner
abbrev Owns : String → String → Job → Type 0
Owns u id j = j.id ≡ id → j.user_id ≡ u

none_with :
    (u id : String) (jobs : List Job)
    → All (λ (k : Job). k.id ≢ id) jobs
    → find (owned_by u id) jobs ≡ none
none_with u id [] h = refl
none_with u id (j ∷ js) h = ground (arith, eq_iff j.id id, none_with u id js h.1)

pub Owns-All :
    (u id : String) (jobs : List Job) (job : Job)
    → UniqueIds jobs
    → find (owned_by u id) jobs ≡ some job
    → All (Owns u id) jobs
Owns-All u id [] job h e = tt
Owns-All u id (j ∷ js) job h e = elim (Bool-cases (owned_by u id j)) [
  | inl hit ↦ (
    λ _. ground (arith, eq_iff j.user_id u),
    All-imp (λ (k : Job). k.id ≢ j.id) (Owns u id) js (λ k ne q. ground (arith, eq_iff j.id id))
        h.0,
  )
  | inr miss ↦ (
    λ q. ground (
      arith,
      none_with u id js (
          All-imp (λ (k : Job). k.id ≢ j.id) (λ (k : Job). k.id ≢ id) js (λ k ne p. ne (p ∙ sym q))
            h.0),
    ),
    Owns-All u id js job h.1 (ground arith),
  )
]

module _ (u other : String) (differ : other ≢ u) (id : String) where
  jobs-update :
      (f : Job → Job) (jobs : List Job)
      → ((j : Job) → (f j).user_id ≡ j.user_id)
      → All (Owns u id) jobs
      → filter (λ j. j.user_id == other) (update_where (has_id id) f jobs)
        ≡ filter (λ j. j.user_id == other) jobs
  jobs-update f [] k h = refl
  jobs-update f (j ∷ js) k h =
      ground (arith, k j, h.0, eq_iff j.id id, eq_iff j.user_id other, jobs-update f js k h.1)

  belongs-update :
      (f : Job → Job) (i : String) (jobs : List Job)
      → ((j : Job) → (f j).user_id ≡ j.user_id)
      → ((j : Job) → (f j).id ≡ j.id)
      → belongs other (update_where (has_id id) f jobs) i ≡ belongs other jobs i
  belongs-update f i [] k l = refl
  belongs-update f i (j ∷ js) k l = ground (arith, k j, l j, belongs-update f i js k l)

  jobs-delete :
      (jobs : List Job)
      → All (Owns u id) jobs
      → filter (λ j. j.user_id == other) (filter (λ j. not (j.id == id)) jobs)
        ≡ filter (λ j. j.user_id == other) jobs
  jobs-delete [] h = refl
  jobs-delete (j ∷ js) h =
      ground (arith, h.0, eq_iff j.id id, eq_iff j.user_id other, jobs-delete js h.1)

  belongs-delete :
      (i : String) (jobs : List Job)
      → All (Owns u id) jobs
      → belongs other (filter (λ j. not (j.id == id)) jobs) i ≡ belongs other jobs i
  belongs-delete i [] h = refl
  belongs-delete i (j ∷ js) h =
      ground (arith, h.0, eq_iff j.id id, eq_iff j.user_id other, belongs-delete i js h.1)

  not_belongs : (jobs : List Job) → All (Owns u id) jobs → belongs other jobs id ≡ false
  not_belongs [] h = refl
  not_belongs (j ∷ js) h =
      ground (arith, h.0, eq_iff j.id id, eq_iff j.user_id other, not_belongs js h.1)

  belongs-append :
      (i : String) (jobs : List Job) (job : Job)
      → job.user_id ≡ u
      → belongs other (jobs ++ job ∷ []) i ≡ belongs other jobs i
  belongs-append i [] job e = ground (arith, eq_iff job.user_id other)
  belongs-append i (j ∷ js) job e = ground (arith, belongs-append i js job e)

fresh_not_belongs :
    (other id : String) (jobs : List Job)
    → All (λ (k : Job). k.id ≢ id) jobs
    → belongs other jobs id ≡ false
fresh_not_belongs other id [] h = refl
fresh_not_belongs other id (j ∷ js) h =
    ground (arith, eq_iff j.id id, fresh_not_belongs other id js h.1)

tables_eq :
    (v v' : Tables) → v.jobs ≡ v'.jobs → v.events ≡ v'.events → v.artifacts ≡ v'.artifacts → v ≡ v'
tables_eq v v' p q r = λ i. record { jobs = p i; events = q i; artifacts = r i }

module _ (u other : String) (differ : other ≢ u) (v : Tables) where
  -- a patch of the user's row, with or without a new event of that job
  patched_parts :
      (id : String) (patch : JobPatch) (now : ℕ)
      → All (Owns u id) v.jobs
      → let jobs = update_where (has_id id) (patch_job patch now) v.jobs in
        (filter (λ j. j.user_id == other) jobs ≡ filter (λ j. j.user_id == other) v.jobs)
        × ((i : String) → belongs other jobs i ≡ belongs other v.jobs i)
  unfolding patch_job
  patched_parts id patch now own = (
    jobs-update u other differ id (patch_job patch now) v.jobs (λ j. refl) own,
    λ i. belongs-update u other differ id (patch_job patch now) i v.jobs (λ j. refl) (λ j. refl),
  )

  pub updated-content :
      (id : String) (body : UpdateJobRequest) (now : ℕ)
      → All (Owns u id) v.jobs
      → content other (updated id body now v) ≡ content other v
  unfolding content
  updated-content id body now own =
      let (js, b) = patched_parts id (editable body) now own in
      tables_eq _ _ js (filter-cong _ _ v.events (λ e. b e.job_id))
        (filter-cong _ _ v.artifacts (λ a. b a.job_id))

  pub moved-content :
      (id : String) (stage : Stage) (now : ℕ) (e : StageEvent)
      → e.job_id ≡ id
      → All (Owns u id) v.jobs
      → content other (moved id stage now e v) ≡ content other v
  unfolding content
  moved-content id stage now e of_job own =
      let (js, b) = patched_parts id (to_stage stage) now own in
      tables_eq _ _ js
        (filter-cong _ (λ f. belongs other v.jobs f.job_id) (v.events ++ e ∷ []) (λ f. b f.job_id)
          ∙ filter-append_dropped (λ f. belongs other v.jobs f.job_id) v.events e
              (rw of_job (not_belongs u other differ id v.jobs own)))
        (filter-cong _ _ v.artifacts (λ a. b a.job_id))

  -- what is dropped with a job of the user
  dropped :
      (id i : String)
      → All (Owns u id) v.jobs
      → not (i == id) ≡ false
      → belongs other v.jobs i ≡ false
  dropped id i own h =
      let e : i ≡ id = ground (arith, eq_iff i id) in
      rw e (not_belongs u other differ id v.jobs own)

  pub deleted-content :
      (id : String) → All (Owns u id) v.jobs → content other (deleted id v) ≡ content other v
  unfolding content
  deleted-content id own =
      let b = λ (i : String). belongs-delete u other differ id i v.jobs own in
      tables_eq _ _ (jobs-delete u other differ id v.jobs own)
        (filter-cong _ (λ e. belongs other v.jobs e.job_id) _ (λ e. b e.job_id)
          ∙ filter-filter (λ e. belongs other v.jobs e.job_id) _ v.events
              (λ e. dropped id e.job_id own))
        (filter-cong _ (λ a. belongs other v.jobs a.job_id) _ (λ a. b a.job_id)
          ∙ filter-filter (λ a. belongs other v.jobs a.job_id) _ v.artifacts
              (λ a. dropped id a.job_id own))

  pub created-content :
      (body : CreateJobRequest) (job : Job) (e : StageEvent)
      → Created (new_job u body) v job e
      → content other (created job e v) ≡ content other v
  unfolding content
  created-content body job e c =
      let b = λ (i : String). belongs-append u other differ "" i v.jobs job c.user_id_eq in
      tables_eq _ _
        (filter-append_dropped (λ j. j.user_id == other) v.jobs job
          (ground (arith, eq_iff job.user_id other)))
        (filter-cong _ (λ f. belongs other v.jobs f.job_id) (v.events ++ e ∷ []) (λ f. b f.job_id)
          ∙ filter-append_dropped (λ f. belongs other v.jobs f.job_id) v.events e
              (rw c.event_job (fresh_not_belongs other job.id v.jobs c.fresh_job)))
        (filter-cong _ _ v.artifacts (λ a. b a.job_id))

  pub written-content :
      (id : String) (type : ArtifactType) (a : JobArtifact)
      → a.job_id ≡ id
      → All (Owns u id) v.jobs
      → content other (with_artifact id type a v) ≡ content other v
  unfolding content
  written-content id type a of_job own =
      let mine = not_belongs u other differ id v.jobs own in
      let p = λ (x : JobArtifact). belongs other v.jobs x.job_id in
      tables_eq _ _ refl refl (elim (Option-cases (find (is_of id type) v.artifacts)) [
        | inl e ↦ rw (e, with_artifact) (filter-append_dropped p v.artifacts a (rw of_job mine))
        | inr (old, e) ↦
            rw (e, with_artifact)
              (filter-write p (is_of id type) a v.artifacts
                (λ x h. ground (arith, eq_iff x.job_id id, mine)) (rw of_job mine))
      ])
