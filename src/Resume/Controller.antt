-- ===== src/Resume/Controller.antt =====
-- services/resume-service/src/resume/resume.controller.ts: what each route checks and calls. Multer
-- and NestJS are parameters: a handler of an upload gets the file that was read, if there was one.
pub mod History
use jobilee.Prelude.{String, Bool, not, Option, none, some, List, ◌==◌, string_eq, if◌then◌else◌}
use jobilee.Prelude.{ℕ}
use jobilee.Effect.{Action, pure, throw, ◌>>=◌}
use jobilee.Thrown.{app_error, http_exception}
use jobilee.Shared.Errors.{bad_request}
use jobilee.Shared.Resume.{BaseResume, TailoredResume, ResumeFile, CreateTailoredResumeRequest}
use jobilee.ServiceKit.ZodPipe.{transform}
use jobilee.Resume.Base
use jobilee.Resume.Base.{BaseDb}
use jobilee.Resume.Versions
use jobilee.Resume.Versions.{VersionsDb}
use jobilee.Resume.Files
use jobilee.Resume.Files.{UploadInput, FilesEnv}

-- what is read of `Express.Multer.File`; `B` is the type of the bytes
pub record MulterFile (B : Type 0) : Type 0 where
  pub original_name : String
  pub mime_type : String
  pub size : ℕ
  pub buffer : B

-- the schemas of the bodies, `R` being the type of what was sent, and the test of `ParseUUIDPipe`
pub record ResumeSchemas (R : Type 0) : Type 0 where
  pub put_base_resume : R → Option String
  pub create_tailored_resume : R → Option CreateTailoredResumeRequest
  -- `uuidSchema`, on a parameter of the query that may be missing
  pub uuid : Option String → Option String
  pub is_uuid : String → Bool

-- `jobId && jobId.length > 0 ? jobId : undefined`
abbrev pub unless_empty : Option String → Option String
unless_empty none = none
unless_empty (some job_id) = if job_id == "" then none else some job_id

abbrev pub input_of : {B : Type 0} → MulterFile B → Option String → UploadInput B
input_of file job_id = record {
  filename = file.original_name;
  content_type = file.mime_type;
  size = file.size;
  buffer = file.buffer;
  job_id = unless_empty job_id;
}

-- what the environment of the controller is
pub record ResumeEnv (W B Url : Type 0) : Type 0 where
  pub base : BaseDb W
  pub versions : VersionsDb W
  pub files : FilesEnv W B Url

module _ {W B Url R : Type 0} (env : ResumeEnv W B Url) (schemas : ResumeSchemas R) where
  abbrev pub parse_uuid : String → Action W String
  parse_uuid id =
      if schemas.is_uuid id
      then pure id
      else throw (http_exception 400 "Validation failed (uuid is expected)")

  abbrev pub get_base_route : String → Action W BaseResume
  get_base_route user_id = Base.get_base env.base user_id

  unfoldable pub put_base_route : String → R → Action W BaseResume
  put_base_route user_id raw = do
    content ← transform schemas.put_base_resume raw
    Base.put_base env.base user_id content

  unfoldable pub list_tailored_route : String → Option String → Action W (List TailoredResume)
  list_tailored_route user_id raw = do
    job_id ← transform schemas.uuid raw
    Base.list_tailored env.base user_id job_id

  unfoldable pub create_tailored_route : String → R → Action W TailoredResume
  unfolding Versions.create_tailored
  create_tailored_route user_id raw = do
    body ← transform schemas.create_tailored_resume raw
    Versions.create_tailored env.versions user_id body

  unfoldable pub list_files_route : String → Option String → Action W (List ResumeFile)
  unfolding Files.list
  list_files_route user_id job_id = Files.list env.files user_id job_id

  unfoldable pub upload_route : String → Option (MulterFile B) → Option String → Action W ResumeFile
  unfolding Files.upload
  upload_route user_id none job_id =
      throw (app_error bad_request "no file was uploaded (field name: 'file')")
  upload_route user_id (some file) job_id = Files.upload env.files user_id (input_of file job_id)

  unfoldable pub download_route : String → String → Action W Url
  unfolding Files.signed_url
  download_route user_id raw = do id ← parse_uuid raw; Files.signed_url env.files user_id id

  unfoldable pub remove_file_route : String → String → Action W (Unit {0})
  unfolding Files.remove
  remove_file_route user_id raw = do id ← parse_uuid raw; Files.remove env.files user_id id
