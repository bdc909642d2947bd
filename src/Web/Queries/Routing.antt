-- ===== src/Web/Queries/Routing.antt =====
-- The paths of apps/web/src/api/jobs.ts and resume.ts, below the `/api` that ends `API_BASE`, against
-- the routes of the gateway.
use Prim.Native.String.{◌++◌}
use jobilee.Prelude.{String, ◌≡◌, refl, sym, ap, subst, ◌∙◌, inl, inr, some, true}
use jobilee.Prelude.Text.Split.{append_assoc}
use jobilee.Gateway.Config.{Config}
use jobilee.Gateway.Routes.{build_routes}
use jobilee.Gateway.Identity.{Exchange}
use jobilee.Gateway.Pipeline.{Proxy, dispatch}
use jobilee.Gateway.Pipeline.PlainPath.{is_plain, is_plain-right}
use jobilee.Gateway.Pipeline.Routing.{
  Owner, jobs, resume, prefix_of, root_of, url_of, IsSegment, IsProxy, IsSentTo, dispatch-IsSentTo,
}
use jobilee.Web.Queries.{jobs_path, job_path, stage_path, base_path, upload_path, file_path}

-- what the hooks ask for, but for the lists that are chosen by a query string
pub data Resource : Type 0 where
  all_jobs base_text all_files : Resource
  one_job job_stage one_file : String → Resource

abbrev pub path_of : Resource → String
path_of all_jobs = jobs_path
path_of (one_job id) = job_path id
path_of (job_stage id) = stage_path id
path_of base_text = base_path
path_of all_files = upload_path
path_of (one_file id) = file_path id

abbrev pub owner_of : Resource → Owner
owner_of all_jobs = jobs
owner_of (one_job id) = jobs
owner_of (job_stage id) = jobs
owner_of _ = resume

-- what follows the root of the service
abbrev rest_of : Resource → String
rest_of all_jobs = ""
rest_of (one_job id) = "/" ++ id
rest_of (job_stage id) = "/" ++ (id ++ "/stage")
rest_of base_text = "/base"
rest_of all_files = "/files"
rest_of (one_file id) = "/files/" ++ id

rest_of-IsSegment : (r : Resource) → IsSegment (rest_of r)
rest_of-IsSegment all_jobs = inl refl
rest_of-IsSegment (one_job id) = inr (id, refl)
rest_of-IsSegment (job_stage id) = inr (id ++ "/stage", refl)
rest_of-IsSegment base_text = inr ("base", refl)
rest_of-IsSegment all_files = inr ("files", refl)
rest_of-IsSegment (one_file id) = inr ("files/" ++ id, append_assoc "/" "files/" id)

path_of-root_of : (r : Resource) → root_of (owner_of r) ++ rest_of r ≡ path_of r
path_of-root_of all_jobs = refl
path_of-root_of (one_job id) = sym (append_assoc "/jobs" "/" id)
path_of-root_of (job_stage id) = sym (append_assoc "/jobs" "/" (id ++ "/stage"))
path_of-root_of base_text = refl
path_of-root_of all_files = refl
path_of-root_of (one_file id) = sym (append_assoc "/resume" "/files/" id)

prefix_of-root_of : (o : Owner) (s : String) → "/api" ++ (root_of o ++ s) ≡ prefix_of o ++ s
prefix_of-root_of Owner.auth s = sym (append_assoc "/api" "/auth" s)
prefix_of-root_of Owner.jobs s = sym (append_assoc "/api" "/jobs" s)
prefix_of-root_of Owner.resume s = sym (append_assoc "/api" "/resume" s)
prefix_of-root_of Owner.ai s = sym (append_assoc "/api" "/ai" s)

-- A request of the pages for a resource reaches the service that owns it, if its URL is configured,
-- under the path that the page asked for, without the `/api`, where that consists of letters, digits,
-- `-`, `_` and `/`.
pub path_of-IsSentTo :
    (proxy : Proxy) (lawful : IsProxy proxy) (config : Config) (url : String) (x : Exchange)
    (r : Resource)
    → url_of config (owner_of r) ≡ some url
    → x.request.path ≡ "/api" ++ path_of r
    → is_plain (path_of r) ≡ true
    → IsSentTo proxy lawful url (path_of r) (dispatch proxy (build_routes config) x)
path_of-IsSentTo proxy lawful config url x r h e plain =
    subst (λ p. IsSentTo proxy lawful url p (dispatch proxy (build_routes config) x))
      (path_of-root_of r)
      (dispatch-IsSentTo proxy lawful config url x (rest_of r) (rest_of-IsSegment r)
        (is_plain-right (root_of (owner_of r)) (rest_of r)
          (ap is_plain (path_of-root_of r) ∙ plain))
        (owner_of r) h
        (e
          ∙ ap (λ p. "/api" ++ p) (sym (path_of-root_of r))
          ∙ prefix_of-root_of (owner_of r) (rest_of r)))
