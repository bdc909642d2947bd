-- ===== src/Jobs/Service.antt =====
-- services/jobs-service/src/jobs/jobs.service.ts, class `JobsService`.
use Prim.Native.String.{◌++◌}
use jobilee.Prelude.{String, Option, none, some, List, Option, ◌==◌, string_eq, if◌then◌else◌}
use jobilee.Effect.{Action, pure, throw, ◌>>=◌}
use jobilee.Thrown.{app_error}
use jobilee.Shared.Errors.{not_found}
use jobilee.Shared.Jobs.{
  Stage, stage_eq, ArtifactType, research, interview_prep, JobArtifact, Job, JobDetail,
  CreateJobRequest, UpdateJobRequest,
}
use jobilee.Jobs.Db.{NewJob, JobsDb, JobPatch}

-- `if (!row) throw new AppError("NOT_FOUND", message)`
abbrev pub require : {W A : Type 0} → String → Option A → Action W A
require message none = throw (app_error not_found message)
require message (some a) = pure a

-- the value of the enum in a template
abbrev type_name : ArtifactType → String
type_name research = "RESEARCH"
type_name interview_prep = "INTERVIEW_PREP"

abbrev no_changes : JobPatch
no_changes = record {
  company = none;
  title = none;
  location = none;
  link = none;
  jd = none;
  notes = none;
  stage = none;
}

abbrev defined : Option String → Option (Option String)
defined none = none
defined (some s) = some (some s)

-- the `data` of `update`: the stage of the body is left out
abbrev pub editable : UpdateJobRequest → JobPatch
editable body = record {
  company = body.company;
  title = body.title;
  location = defined body.location;
  link = defined body.link;
  jd = body.jd;
  notes = body.notes;
  stage = none;
}

abbrev pub to_stage : Stage → JobPatch
to_stage s = record no_changes { stage = some s }

-- the `data` of `create`
abbrev pub new_job : String → CreateJobRequest → NewJob
new_job user_id body = record {
  user_id = user_id;
  company = body.company;
  title = body.title;
  location = body.location;
  link = body.link;
  jd = body.jd;
  notes = body.notes;
  stage = body.stage;
  event_stage = body.stage;
}

module _ {W : Type 0} (db : JobsDb W) where
  unfoldable pub assert_owned : String → String → Action W Job
  assert_owned user_id id = do job ← db.find_job user_id id; require "job not found" job

  unfoldable pub list : String → Action W (List Job)
  list user_id = db.find_jobs user_id

  unfoldable pub create : String → CreateJobRequest → Action W Job
  create user_id body = db.create_job (new_job user_id body)

  unfoldable pub get : String → String → Action W JobDetail
  get user_id id = do job ← db.find_job_detail user_id id; require "job not found" job

  unfoldable pub update : String → String → UpdateJobRequest → Action W Job
  unfolding assert_owned
  update user_id id body = do _ ← assert_owned user_id id; db.update_job id (editable body)

  unfoldable pub remove : String → String → Action W (Unit {0})
  unfolding assert_owned
  remove user_id id = do _ ← assert_owned user_id id; db.delete_job id

  unfoldable pub change_stage : String → String → Stage → Action W Job
  unfolding assert_owned
  change_stage user_id id stage = do
    current ← assert_owned user_id id
    if current.stage == stage then pure current else db.move_job id stage (to_stage stage)

  unfoldable pub get_artifact : String → String → ArtifactType → Action W JobArtifact
  unfolding assert_owned
  get_artifact user_id id type = do
    _ ← assert_owned user_id id
    artifact ← db.find_artifact id type
    require ("no " ++ (type_name type ++ " artifact for this job")) artifact

  unfoldable pub put_artifact : String → String → ArtifactType → String → Action W JobArtifact
  unfolding assert_owned
  put_artifact user_id id type content = do
    _ ← assert_owned user_id id
    db.upsert_artifact id type content
