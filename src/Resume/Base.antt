-- ===== src/Resume/Base.antt =====
-- services/resume-service/src/resume/resume.service.ts: the base resume, and the list of tailored
-- ones.
use jobilee.Prelude.{String, Option, none, some, List}
use jobilee.Effect.{Action}
use jobilee.Shared.Resume.{BaseResume, TailoredResume}

-- the queries on `base_resumes` and `tailored_resumes`
pub record BaseDb (W : Type 0) : Type 0 where
  -- baseResume.upsert({ where: { userId }, create: { userId, content }, update: { content } }), where
  -- a content that is none is left alone
  pub upsert : String → String → Option String → Action W BaseResume
  -- tailoredResume.findMany({ where: { userId, jobId }, orderBy: { version: "desc" } })
  pub versions_desc : String → String → Action W (List TailoredResume)

module _ {W : Type 0} (db : BaseDb W) where
  -- `getBase`
  abbrev pub get_base : String → Action W BaseResume
  get_base user_id = db.upsert user_id "" none

  -- `putBase`
  abbrev pub put_base : String → String → Action W BaseResume
  put_base user_id content = db.upsert user_id content (some content)

  -- `listTailored`
  abbrev pub list_tailored : String → String → Action W (List TailoredResume)
  list_tailored user_id job_id = db.versions_desc user_id job_id
