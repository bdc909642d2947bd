-- ===== src/Web/Queries.antt =====
-- apps/web/src/api/jobs.ts and resume.ts: the queries and mutations of the pages. React Query's cache,
-- the schemas and `JSON.stringify` are parameters.
pub mod Refetch
pub mod Routing
use Prim.Native.String.{◌++◌}
use jobilee.Prelude.{
  String, ◌≡◌, Bool, true, false, ◌||◌, Option, none, some, List, [], ◌∷◌, ◌==◌, string_eq,
  if◌then◌else◌,
}
use jobilee.Effect.{Outcome, Action, returned, threw, ◌>>=◌}
use jobilee.HttpClient.{Method, get, post, put, patch, delete}
use jobilee.Shared.Jobs.{Stage, Job, JobDetail, CreateJobRequest, UpdateJobRequest}
use jobilee.Shared.Resume.{BaseResume, TailoredResume, ResumeFile}
use jobilee.Web.Client.{
  Browser, Page, WebBody, no_body, json_body, form_data, RequestOptions, is_set, api_fetch,
}
use jobilee.Web.Requests.{or_zod_error}

abbrev pub Key : Type 0
Key = List String

-- `jobKeys` and `resumeKeys`
abbrev pub jobs_key : Key
jobs_key = "jobs" ∷ []

abbrev pub job_key : String → Key
job_key id = "jobs" ∷ id ∷ []

abbrev pub base_key : Key
base_key = "resume" ∷ "base" ∷ []

abbrev pub tailored_key : String → Key
tailored_key job_id = "resume" ∷ "tailored" ∷ job_id ∷ []

abbrev pub or_all : Option String → String
or_all none = "all"
or_all (some job_id) = job_id

abbrev pub files_key : Option String → Key
files_key job_id = "resume" ∷ "files" ∷ or_all job_id ∷ []

abbrev pub starts_with : Key → Key → Bool
starts_with [] key = true
starts_with (k ∷ ks) [] = false
starts_with (k ∷ ks) (q ∷ qs) = if k == q then starts_with ks qs else false

-- the paths of the requests
abbrev pub jobs_path : String
jobs_path = "/jobs"

abbrev pub job_path : String → String
job_path id = "/jobs/" ++ id

abbrev pub stage_path : String → String
stage_path id = "/jobs/" ++ (id ++ "/stage")

abbrev pub base_path : String
base_path = "/resume/base"

abbrev pub upload_path : String
upload_path = "/resume/files"

abbrev pub file_path : String → String
file_path id = "/resume/files/" ++ id

-- React Query's cache, of which is known what is to be fetched again and the base resume
pub record QueryCache (C : Type 0) : Type 0 where
  pub is_stale : Key → C → Bool
  pub base_of : C → Option BaseResume
  -- `invalidateQueries({ queryKey })`, which means every key that starts with the given one
  pub invalidate : Key → C → C
  pub invalidate_law :
      (key query : Key) (c : C)
      → is_stale query (invalidate key c) ≡ (starts_with key query || is_stale query c)
  -- `setQueryData(resumeKeys.base, saved)`
  pub set_base : BaseResume → C → C
  pub set_base_law : (saved : BaseResume) (c : C) → base_of (set_base saved c) ≡ some saved

-- the schemas, on a payload that may be `undefined`, and the bodies
pub record Schemas (J F : Type 0) : Type 0 where
  pub job : Option J → Option Job
  pub job_list : Option J → Option (List Job)
  pub job_detail : Option J → Option JobDetail
  pub base_resume : Option J → Option BaseResume
  pub tailored_list : Option J → Option (List TailoredResume)
  pub resume_file : Option J → Option ResumeFile
  pub file_list : Option J → Option (List ResumeFile)
  pub signed_url : Option J → Option String
  pub of_create : CreateJobRequest → String
  pub of_update : UpdateJobRequest → String
  pub of_stage : Stage → String
  pub of_content : String → String
  pub of_form : F → Option String → String

pub record App (N C : Type 0) : Type 0 where
  pub page : Page N
  pub cache : C

module _ {N J C F : Type 0} (browser : Browser N J) (schemas : Schemas J F)
    (queries : QueryCache C) where
  abbrev pub in_app : {A : Type 0} → C → Outcome (Page N) A → Outcome (App N C) A
  in_app c (returned a p) = returned a (record { page = p; cache = c })
  in_app c (threw e p) = threw e (record { page = p; cache = c })

  -- a call of `apiFetch`
  unfoldable pub fetching : String → Method → WebBody → Action (App N C) (Option J)
  unfolding api_fetch
  fetching path method body app = in_app app.cache (
      api_fetch browser path (record { method = method; body = body; skip_refresh = false })
        app.page)

  -- … and the parse of its answer
  unfoldable pub parsed :
      {A : Type 0} → (Option J → Option A) → String → Method → WebBody → Action (App N C) A
  unfolding fetching
  parsed schema path method body = do
    payload ← fetching path method body
    or_zod_error (schema payload)

  abbrev pub on_cache : (C → C) → Action (App N C) (Unit {0})
  on_cache f app = returned tt (record app { cache = f app.cache })

  -- the `mutationFn` and, when it returned, the `onSuccess`
  abbrev pub on_success : {A : Type 0} → Action (App N C) A → (A → C → C) → Action (App N C) A
  on_success mutation then_do app = elim (mutation app) [
    | returned a w ↦ returned a (record w { cache = then_do a w.cache })
    | threw e w ↦ threw e w
  ]

  unfoldable pub use_jobs : Action (App N C) (List Job)
  unfolding parsed
  use_jobs = parsed schemas.job_list jobs_path get no_body

  unfoldable pub use_job : String → Action (App N C) JobDetail
  unfolding parsed
  use_job id = parsed schemas.job_detail (job_path id) get no_body

  unfoldable pub use_create_job : CreateJobRequest → Action (App N C) Job
  unfolding parsed
  use_create_job body =
      on_success (parsed schemas.job jobs_path post (json_body (schemas.of_create body)))
        (λ _. queries.invalidate jobs_key)

  abbrev pub job_and_board : {A : Type 0} → String → A → C → C
  job_and_board id _ c = queries.invalidate jobs_key (queries.invalidate (job_key id) c)

  unfoldable pub use_update_job : String → UpdateJobRequest → Action (App N C) Job
  unfolding parsed
  use_update_job id body =
      on_success (parsed schemas.job (job_path id) patch (json_body (schemas.of_update body)))
        (job_and_board id)

  unfoldable pub use_change_stage : String → Stage → Action (App N C) Job
  unfolding parsed
  use_change_stage id stage =
      on_success (parsed schemas.job (stage_path id) post (json_body (schemas.of_stage stage)))
        (job_and_board id)

  unfoldable pub use_delete_job : String → Action (App N C) (Option J)
  unfolding fetching
  use_delete_job id =
      on_success (fetching (job_path id) delete no_body) (λ _. queries.invalidate jobs_key)

  unfoldable pub use_base_resume : Action (App N C) BaseResume
  unfolding parsed
  use_base_resume = parsed schemas.base_resume base_path get no_body

  unfoldable pub use_save_base_resume : String → Action (App N C) BaseResume
  unfolding parsed
  use_save_base_resume content =
      on_success (parsed schemas.base_resume base_path put (json_body (schemas.of_content content)))
        queries.set_base

  unfoldable pub use_tailored_resumes : String → Action (App N C) (List TailoredResume)
  unfolding parsed
  use_tailored_resumes job_id =
      parsed schemas.tailored_list ("/resume/tailored?jobId=" ++ job_id) get no_body

  -- `jobId ? … : …`
  abbrev pub files_path : Option String → String
  files_path none = "/resume/files"
  files_path (some job_id) =
      if is_set (some job_id) then "/resume/files?jobId=" ++ job_id else "/resume/files"

  unfoldable pub use_resume_files : Option String → Action (App N C) (List ResumeFile)
  unfolding parsed
  use_resume_files job_id = parsed schemas.file_list (files_path job_id) get no_body

  -- the form has the job's id if there is one that is not empty
  abbrev pub form_of : F → Option String → String
  form_of file job_id = schemas.of_form file (if is_set job_id then job_id else none)

  unfoldable pub use_upload_resume_file : Option String → F → Action (App N C) ResumeFile
  unfolding parsed
  use_upload_resume_file job_id file =
      on_success (parsed schemas.resume_file upload_path post (form_data (form_of file job_id)))
        (λ _. queries.invalidate (files_key job_id))

  unfoldable pub use_delete_resume_file : Option String → String → Action (App N C) (Option J)
  unfolding fetching
  use_delete_resume_file job_id id =
      on_success (fetching (file_path id) delete no_body)
        (λ _. queries.invalidate (files_key job_id))

  -- `downloadResumeFile`, up to the address that it hands to the browser
  unfoldable pub download_url : String → Action (App N C) String
  unfolding parsed
  download_url id = parsed schemas.signed_url (file_path id) get no_body
