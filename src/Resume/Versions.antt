-- ===== src/Resume/Versions.antt =====
-- services/resume-service/src/resume/resume.service.ts, `createTailored`: versions under writers
-- that collide.
pub mod Sequence
mod Tests
use jobilee.Prelude.{ℕ, zero, suc, ◌+◌, String, Option, none, some}
use jobilee.Effect.{Action, pure, throw, catch, ◌>>=◌}
use jobilee.Thrown.{Thrown, app_error, unique_violation}
use jobilee.Shared.Errors.{conflict}
use jobilee.Shared.Resume.{TailoredResume, CreateTailoredResumeRequest}

-- the queries on `tailored_resumes`
pub record VersionsDb (W : Type 0) : Type 0 where
  -- the `version` of tailoredResume.findFirst({ where: { userId, jobId }, orderBy: { version: "desc" } })
  pub latest_version : String → String → Action W (Option ℕ)
  -- tailoredResume.create
  pub create_version : String → ℕ → CreateTailoredResumeRequest → Action W TailoredResume

abbrev pub version_retries : ℕ
version_retries = 5

-- `(latest?.version ?? 0) + 1`
abbrev pub next_version : Option ℕ → ℕ
next_version none = 1
next_version (some v) = v + 1

-- the `catch` block: a collision goes on to the next turn
abbrev pub collided : {W : Type 0} → Thrown → Action W (Option TailoredResume)
collided unique_violation = pure none
collided e = throw e

module _ {W : Type 0} (db : VersionsDb W) (user_id : String)
    (body : CreateTailoredResumeRequest) where
  abbrev pub insert : ℕ → Action W (Option TailoredResume)
  insert version = do row ← db.create_version user_id version body; pure (some row)

  abbrev pub return_or : Action W TailoredResume → Option TailoredResume → Action W TailoredResume
  return_or again none = again
  return_or again (some row) = pure row

  -- the loop, with the turns that are left
  unfoldable pub allocate : ℕ → Action W TailoredResume
  allocate zero = throw (app_error conflict "could not allocate a resume version, please retry")
  allocate (suc left) = do
    latest ← db.latest_version user_id body.job_id
    row ← catch (insert (next_version latest)) collided
    return_or (allocate left) row

  unfoldable pub create_tailored : Action W TailoredResume
  unfolding allocate
  create_tailored = allocate version_retries
