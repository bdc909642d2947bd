-- ===== src/Jobs/Tests.antt =====
-- The jobs service over tables in memory, at concrete calls.
use jobilee.Prelude.{
  absent, String, ◌≡◌, refl, Bool, not, ◌||◌, none, some, [], ◌∷◌, ◌++◌, filter, find, any, arith,
  eq_iff, ◌==◌, string_eq, if◌then◌else◌, inl, inr, Bool-cases, Option-cases,
}
use jobilee.Effect.{Action, Outcome, returned, threw}
use jobilee.Effect.Rules.{Ensures}
use jobilee.Thrown.{unique_violation, other}
use jobilee.Shared.Jobs.{
  Stage, saved, applied, offer, ArtifactType, StageEvent, JobArtifact, Job, CreateJobRequest,
}
use jobilee.Jobs.Db.{
  NewJob, JobsDb, Tables, JobPatch, created, owned_by, has_id, is_of, update_where, patch_job,
  Creates,
}
use jobilee.Jobs.Service.{new_job}
use jobilee.Jobs.Calls.{move_job, delete_job, create_job as create_call, step, with_artifact}
use jobilee.Jobs.Changes.{Change, step-Change}
use jobilee.Jobs.History.{IsConsistent, last_stage, run, run-IsConsistent}
use jobilee.Jobs.Tenancy.{content-step}
use jobilee.Jobs.Tenancy.Content.{UniqueIds, content}

abbrev job_of : String → NewJob → Job
job_of id body = record {
  id = id;
  user_id = body.user_id;
  company = body.company;
  title = body.title;
  location = body.location;
  link = body.link;
  jd = body.jd;
  notes = body.notes;
  stage = body.stage;
  created_at = 5;
  updated_at = 5;
}

abbrev event_of : String → Stage → StageEvent
event_of job_id stage = record { id = "e"; job_id = job_id; stage = stage; at = 6 }

abbrev artifact_of : String → ArtifactType → String → JobArtifact
artifact_of job_id type content = record {
  id = "a";
  job_id = job_id;
  type = type;
  content = content;
  created_at = 7;
}

-- Every new job gets the id "new"; a second one meets the primary key.
abbrev clash : Tables → Bool
clash v =
    any (λ (j : Job). j.id == "new") v.jobs
    || (any (λ (e : StageEvent). e.job_id == "new") v.events
        || any (λ (a : JobArtifact). a.job_id == "new") v.artifacts)

abbrev create_job : NewJob → Action Tables Job
create_job data_value v =
    if clash v
    then threw unique_violation v
    else returned (job_of "new" data_value)
        (created (job_of "new" data_value) (event_of "new" data_value.event_stage) v)

create_job_law :
    (data_value : NewJob) (v : Tables)
    → Ensures (create_job data_value v) (λ job v'. Creates data_value v v' job) (λ v'. v' ≡ v)
create_job_law data_value v = elim (Bool-cases (clash v)) [
  | inl h ↦ rw h refl
  | inr h ↦ rw h (
    event_of "new" data_value.event_stage,
    record {
      user_id_eq = refl;
      company_eq = refl;
      title_eq = refl;
      location_eq = refl;
      link_eq = refl;
      jd_eq = refl;
      notes_eq = refl;
      stage_eq = refl;
      event_job = refl;
      event_stage = refl;
      fresh_job = absent (λ (j : Job). j.id) "new" v.jobs (ground arith);
      fresh_event = absent (λ (e : StageEvent). e.job_id) "new" v.events (ground arith);
      fresh_artifact = absent (λ (a : JobArtifact). a.job_id) "new" v.artifacts (ground arith);
    },
    refl,
  )
]

-- The row with an id after a write; without one, the write fails.
abbrev found_in : String → Tables → Tables → Outcome Tables Job
found_in id v v' = elim (find (has_id id) v'.jobs) [
  | none ↦ threw other v
  | some job ↦ returned job v'
]

found_in_law :
    (id : String) (v v' : Tables) (good : Job → Tables → Type 0)
    → ((job : Job) → find (has_id id) v'.jobs ≡ some job → good job v')
    → Ensures (found_in id v v') good (λ w. w ≡ v)
found_in_law id v v' good k = elim (Option-cases (find (has_id id) v'.jobs)) [
  | inl e ↦ rw (e, found_in, Ensures) refl
  | inr (job, e) ↦ rw (e, found_in, Ensures) (k job e)
]

abbrev patched : String → JobPatch → Tables → Tables
patched id patch v = record v { jobs = update_where (has_id id) (patch_job patch 8) v.jobs }

abbrev memory : JobsDb Tables
memory = record {
  view = λ v. v;
  find_job = λ user_id id v. returned (find (owned_by user_id id) v.jobs) v;
  find_job_law = λ user_id id v. (refl, refl);
  find_jobs = λ user_id v. threw other v;
  find_jobs_law = λ user_id v. refl;
  find_job_detail = λ user_id id v. threw other v;
  find_job_detail_law = λ user_id id v. refl;
  create_job = create_job;
  create_job_law = create_job_law;
  update_job = λ id patch v. found_in id v (patched id patch v);
  update_job_law = λ id patch v. found_in_law id v (patched id patch v) _ (λ job f. (8, f, refl));
  delete_job = λ id v. returned tt (record {
    jobs = filter (λ j. not (j.id == id)) v.jobs;
    events = filter (λ e. not (e.job_id == id)) v.events;
    artifacts = filter (λ a. not (a.job_id == id)) v.artifacts;
  });
  delete_job_law = λ id v. refl;
  move_job = λ id stage patch v.
      found_in id v (record (patched id patch v) { events = v.events ++ event_of id stage ∷ [] });
  move_job_law = λ id stage patch v.
      found_in_law id v
        (record (patched id patch v) { events = v.events ++ event_of id stage ∷ [] }) _
        (λ job f. (8, event_of id stage, refl, refl, f, refl));
  find_artifact = λ id type v. returned (find (is_of id type) v.artifacts) v;
  find_artifact_law = λ id type v. (refl, refl);
  upsert_artifact = λ id type content v.
      returned (artifact_of id type content)
        (with_artifact id type (artifact_of id type content) v);
  upsert_artifact_law = λ id type content v. (refl, refl, refl, refl);
}

abbrev posting : Stage → CreateJobRequest
posting stage = record {
  company = "Acme";
  title = "Engineer";
  location = none;
  link = none;
  jd = "Build things.";
  notes = "";
  stage = stage;
}

-- a job of ann and a job of bob
abbrev tables : Tables
tables = record {
  jobs =
      job_of "1" (new_job "ann" (posting saved))
      ∷ job_of "2" (new_job "bob" (posting applied))
      ∷ [];
  events = event_of "1" saved ∷ event_of "2" applied ∷ [];
  artifacts = [];
}

tables-IsConsistent : IsConsistent tables
unfolding last_stage
tables-IsConsistent = record { agree = (refl, (refl, tt)) }

tables-UniqueIds : UniqueIds tables.jobs
tables-UniqueIds = ((ground (arith, eq_iff "2" "1"), tt), (tt, tt))

step-Change_example : Change "ann" tables (step memory "ann" (move_job "1" applied) tables)
step-Change_example = step-Change memory "ann" (move_job "1" applied) tables

-- bob tries to move ann's job in between
run-IsConsistent_example : IsConsistent (
    run memory
      (("ann", move_job "1" applied)
        ∷ ("bob", move_job "1" offer)
        ∷ ("bob", delete_job "2")
        ∷ ("ann", create_call (posting saved))
        ∷ [])
      tables)
run-IsConsistent_example = run-IsConsistent memory _ tables tables-IsConsistent

content-step_example :
    content "bob" (step memory "ann" (delete_job "1") tables) ≡ content "bob" tables
content-step_example =
    content-step memory "ann" "bob" (delete_job "1") tables (ground (arith, eq_iff "bob" "ann"))
      tables-UniqueIds
