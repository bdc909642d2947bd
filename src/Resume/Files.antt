-- ===== src/Resume/Files.antt =====
-- services/resume-service/src/files/files.service.ts, class `FilesService`. The database and the
-- object storage are a parameter.
pub mod Storage
pub mod Keys
pub mod Sound
use Prim.Native.String.{◌++◌}
use jobilee.Prelude.{
  ℕ, String, Bool, true, false, not, Option, none, some, List, any, ltb, show, ◌==◌, string_eq,
  if◌then◌else◌,
}
use jobilee.Effect.{Action, pure, throw, catch, ignore_errors, ◌>>=◌}
use jobilee.Thrown.{Thrown, app_error}
use jobilee.Shared.Errors.{bad_request, not_found}
use jobilee.Resume.Objects.{build_object_key}
use jobilee.Shared.Resume.{ResumeFile, resume_upload_max_bytes, resume_upload_content_types}

-- `B` is the type of the bytes
pub record UploadInput (B : Type 0) : Type 0 where
  pub filename : String
  pub content_type : String
  pub size : ℕ
  pub buffer : B
  pub job_id : Option String

pub record FilesEnv (W B Url : Type 0) : Type 0 where
  -- resumeFile.findFirst({ where: { id, userId } })
  pub find_owned : String → String → Action W (Option ResumeFile)
  -- resumeFile.create, for a user, an upload and its object key
  pub create_file : String → UploadInput B → String → Action W ResumeFile
  -- resumeFile.delete({ where: { id } })
  pub delete_file : String → Action W (Unit {0})
  -- resumeFile.findMany({ where: { userId, jobId }, orderBy: { createdAt: "desc" } })
  pub find_files : String → Option String → Action W (List ResumeFile)
  -- `randomUUID` and `toLowerCase`
  pub random_uuid : Action W String
  pub to_lower_case : String → String
  -- the calls of the object storage
  pub put_object : String → B → String → Action W (Unit {0})
  pub remove_object : String → Action W (Unit {0})
  pub signed_download_url : String → String → Action W Url

abbrev pub is_allowed : String → Bool
is_allowed content_type = any (λ t. t == content_type) resume_upload_content_types

abbrev pub found_or_throw : {W : Type 0} → Option ResumeFile → Action W ResumeFile
found_or_throw none = throw (app_error not_found "file not found")
found_or_throw (some file) = pure file

module _ {W B Url : Type 0} (env : FilesEnv W B Url) where
  unfoldable pub owned : String → String → Action W ResumeFile
  owned user_id id = do file ← env.find_owned user_id id; found_or_throw file

  unfoldable pub list : String → Option String → Action W (List ResumeFile)
  list user_id job_id = env.find_files user_id job_id

  -- the `catch` block of `upload`
  abbrev pub drop_object : String → Thrown → Action W ResumeFile
  drop_object object_key error = do _ ← ignore_errors (env.remove_object object_key); throw error

  abbrev pub store : String → UploadInput B → Action W ResumeFile
  store user_id input = do
    object_key ← build_object_key env.random_uuid env.to_lower_case user_id input.filename
    _ ← env.put_object object_key input.buffer input.content_type
    catch (env.create_file user_id input object_key) (drop_object object_key)

  unfoldable pub upload : String → UploadInput B → Action W ResumeFile
  upload user_id input =
      if not (is_allowed input.content_type)
      then throw (
          app_error bad_request (
            "unsupported file type: "
            ++ (input.content_type ++ ". Allowed: PDF, DOCX, DOC, TXT, MD")))
      else if ltb resume_upload_max_bytes input.size
      then throw (
          app_error bad_request
            ("file is larger than " ++ (show resume_upload_max_bytes ++ " bytes")))
      else store user_id input

  unfoldable pub signed_url : String → String → Action W Url
  unfolding owned
  signed_url user_id id = do
    file ← owned user_id id
    env.signed_download_url file.object_key file.filename

  unfoldable pub remove : String → String → Action W (Unit {0})
  unfolding owned
  remove user_id id = do
    file ← owned user_id id
    _ ← env.delete_file id
    ignore_errors (env.remove_object file.object_key)
