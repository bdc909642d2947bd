-- ===== src/Jobs/History.antt =====
-- The stage of a job and its history never disagree.
use jobilee.Prelude.{
  ℕ, String, ◌≡◌, ◌≢◌, refl, not, Option, none, some, List, [], ◌∷◌, ◌++◌, filter, All, All-imp,
  All-map, All-filter, All-append, All-both, arith, eq_iff, ◌==◌, string_eq, if◌then◌else◌,
}
use jobilee.Shared.Jobs.{
  Stage, ArtifactType, JobArtifact, StageEvent, Job, CreateJobRequest, UpdateJobRequest,
}
use jobilee.Jobs.Db.{JobsDb, Tables, Created, created, patch_job}
use jobilee.Jobs.Service.{new_job}
use jobilee.Jobs.Calls.{Call, step, updated, deleted, moved, with_artifact}
use jobilee.Jobs.Changes.{Change, keeps, creates, updates, deletes, moves, writes, step-Change}

-- the stage of the newest event of a job
unfoldable pub last_stage : String → List StageEvent → Option Stage
last_stage id [] = none
last_stage id (e ∷ es) = elim (last_stage id es) [
  | some s ↦ some s
  | none ↦ if e.job_id == id then some e.stage else none
]

last_stage-append :
    (id : String) (es : List StageEvent) (e : StageEvent)
    → last_stage id (es ++ e ∷ []) ≡ (if e.job_id == id then some e.stage else last_stage id es)
unfolding last_stage
last_stage-append id [] e = refl
last_stage-append id (f ∷ es) e = ground (arith, last_stage-append id es e)

-- what happens to another job's events leaves a job's history alone
last_stage-filter :
    (id gone : String) (es : List StageEvent)
    → id ≢ gone
    → last_stage id (filter (λ e. not (e.job_id == gone)) es) ≡ last_stage id es
unfolding last_stage
last_stage-filter id gone [] ne = refl
last_stage-filter id gone (e ∷ es) ne =
    ground (arith, eq_iff e.job_id gone, eq_iff e.job_id id, last_stage-filter id gone es ne)

abbrev Agrees : List StageEvent → Job → Type 0
Agrees es j = last_stage j.id es ≡ some j.stage

-- Every job is at the stage of the newest entry of its history.
pub record IsConsistent (v : Tables) : Type 0 where
  pub agree : All (Agrees v.events) v.jobs

updated-IsConsistent :
    (id : String) (body : UpdateJobRequest) (now : ℕ) (v : Tables)
    → IsConsistent v
    → IsConsistent (updated id body now v)
unfolding patch_job
updated-IsConsistent id body now v h = record {
  agree = All-map (Agrees v.events) (Agrees v.events) _ v.jobs (λ j a. ground arith) h.agree;
}

moved-IsConsistent :
    (id : String) (stage : Stage) (now : ℕ) (e : StageEvent) (v : Tables)
    → e.job_id ≡ id
    → e.stage ≡ stage
    → IsConsistent v
    → IsConsistent (moved id stage now e v)
unfolding patch_job
moved-IsConsistent id stage now e v of_job at_stage h = record {
  agree =
      All-map (Agrees v.events) (Agrees (v.events ++ e ∷ [])) _ v.jobs
        (λ j a.
          ground (arith, last_stage-append j.id v.events e, eq_iff e.job_id j.id, eq_iff j.id id))
        h.agree;
}

deleted-IsConsistent : (id : String) (v : Tables) → IsConsistent v → IsConsistent (deleted id v)
deleted-IsConsistent id v h = record {
  agree =
      All-filter (Agrees v.events) (Agrees (deleted id v).events) _ v.jobs
        (λ j kept a. ground (arith, last_stage-filter j.id id v.events, eq_iff j.id id)) h.agree;
}

created-IsConsistent :
    (user_id : String) (body : CreateJobRequest) (v : Tables) (job : Job) (e : StageEvent)
    → Created (new_job user_id body) v job e
    → IsConsistent v
    → IsConsistent (created job e v)
created-IsConsistent user_id body v job e c h = record {
  agree =
      All-append (Agrees (v.events ++ e ∷ [])) v.jobs (job ∷ [])
        (All-imp (λ (j : Job). (j.id ≢ job.id) × Agrees v.events j) _ v.jobs
          (λ j a. ground (arith, last_stage-append j.id v.events e, eq_iff e.job_id j.id))
          (All-both (λ (j : Job). j.id ≢ job.id) (Agrees v.events) v.jobs c.fresh_job h.agree))
        (ground (arith, last_stage-append job.id v.events e, eq_iff e.job_id job.id), tt);
}

written-IsConsistent :
    (id : String) (type : ArtifactType) (a : JobArtifact) (v : Tables)
    → IsConsistent v
    → IsConsistent (with_artifact id type a v)
written-IsConsistent id type a v h = record { agree = h.agree }

-- Every change that a call may make keeps each job's stage in agreement with its history.
Change-IsConsistent :
    (u : String) (v v' : Tables) → Change u v v' → IsConsistent v → IsConsistent v'
Change-IsConsistent u v v' (keeps e) h = rw e h
Change-IsConsistent u v v' (creates body job ev made e) h =
    rw e (created-IsConsistent u body v job ev made h)
Change-IsConsistent u v v' (updates id body now job owned e) h =
    rw e (updated-IsConsistent id body now v h)
Change-IsConsistent u v v' (deletes id job owned e) h = rw e (deleted-IsConsistent id v h)
Change-IsConsistent u v v' (moves id stage now ev job owned of_job at_stage e) h =
    rw e (moved-IsConsistent id stage now ev v of_job at_stage h)
Change-IsConsistent u v v' (writes id type a job owned of_job of_type e) h =
    rw e (written-IsConsistent id type a v h)

module _ {W : Type 0} (db : JobsDb W) where
  -- the calls of all users, in the order in which they are served
  pub run : List (String × Call) → W → W
  run [] w = w
  run ((u, c) ∷ cs) w = run cs (step db u c w)

  -- From tables in which they agree, and so from empty ones, every history of calls of any users
  -- leaves every job at the stage of the newest entry of its history.
  pub run-IsConsistent :
      (cs : List (String × Call)) (w : W)
      → IsConsistent (db.view w)
      → IsConsistent (db.view (run cs w))
  unfolding run
  run-IsConsistent [] w h = h
  run-IsConsistent ((u, c) ∷ cs) w h =
      run-IsConsistent cs (step db u c w) (Change-IsConsistent u _ _ (step-Change db u c w) h)
