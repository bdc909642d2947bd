-- ===== src/HttpClient/Services.antt =====
-- packages/http-client/src/services.ts: the typed clients of the services. A call is its method, its
-- path, its body, its query and the schema of its answer.
pub mod Identity
mod Tests
use Prim.Native.String.{◌++◌}
use jobilee.Prelude.{String, Option, none, some, List, [], ◌∷◌}
use jobilee.Shared.Ai.{CreateTaskRequest}
use jobilee.Shared.Auth.{Credentials}
use jobilee.Shared.Jobs.{
  Stage, ArtifactType, CreateJobRequest, UpdateJobRequest, research, interview_prep,
}
use jobilee.Shared.Resume.{CreateTailoredResumeRequest}
use jobilee.Gateway.Headers.{Headers}
use jobilee.HttpClient.{Method, get, post, patch, put, delete, Body}
use jobilee.HttpClient.Client.{RequestContext, bearer, CallSettings}

pub data ServiceBody : Type 0 where
  credentials : Credentials → ServiceBody
  refresh_token : String → ServiceBody
  new_job : CreateJobRequest → ServiceBody
  job_update : UpdateJobRequest → ServiceBody
  new_stage : Stage → ServiceBody
  content : String → ServiceBody
  new_tailored : CreateTailoredResumeRequest → ServiceBody
  new_task : CreateTaskRequest → ServiceBody

-- the schemas of packages/shared-types that the clients name
pub data Schema : Type 0 where
  auth_response access_token_response user_envelope job_list job job_detail artifact : Schema
  base_resume tailored_list tailored_resume create_task_response generation_task : Schema

pub record ServiceCall : Type 0 where
  pub method : Method
  pub path : String
  pub body : Option ServiceBody
  pub query : List (String × Option String)
  pub headers : Headers
  pub schema : Option Schema

abbrev pub call : Method → String → Option ServiceBody → Option Schema → ServiceCall
call method path body schema = record {
  method = method;
  path = path;
  body = body;
  query = [];
  headers = [];
  schema = schema;
}

-- `createAuthClient`; `me` then takes the field `user`
pub data AuthCall : Type 0 where
  register login : Credentials → AuthCall
  refresh me : String → AuthCall

unfoldable pub auth_call : AuthCall → ServiceCall
auth_call (register body) =
    call post "/auth/register" (some (credentials body)) (some auth_response)
auth_call (login body) = call post "/auth/login" (some (credentials body)) (some auth_response)
auth_call (refresh token) =
    call post "/auth/refresh" (some (refresh_token token)) (some access_token_response)
auth_call (me access_token) = record (call get "/auth/me" none (some user_envelope)) {
  headers = bearer access_token;
}

-- a type inside a path
abbrev pub artifact_name : ArtifactType → String
artifact_name research = "RESEARCH"
artifact_name interview_prep = "INTERVIEW_PREP"

-- the calls of jobs-service, resume-service and ai-service, which all take a caller's context
pub data ContextCall : Type 0 where
  -- `createJobsClient`
  list_jobs : ContextCall
  create_job : CreateJobRequest → ContextCall
  get_job : String → ContextCall
  update_job : String → UpdateJobRequest → ContextCall
  remove_job : String → ContextCall
  change_stage : String → Stage → ContextCall
  get_artifact : String → ArtifactType → ContextCall
  put_artifact : String → ArtifactType → String → ContextCall
  -- `createResumeClient`
  get_base : ContextCall
  put_base : String → ContextCall
  list_tailored : String → ContextCall
  create_tailored : CreateTailoredResumeRequest → ContextCall
  -- `createAiClient`
  create_task : CreateTaskRequest → ContextCall
  get_task : String → ContextCall

unfoldable pub context_call : ContextCall → ServiceCall
context_call list_jobs = call get "/jobs" none (some job_list)
context_call (create_job body) = call post "/jobs" (some (new_job body)) (some job)
context_call (get_job id) = call get ("/jobs/" ++ id) none (some job_detail)
context_call (update_job id body) = call patch ("/jobs/" ++ id) (some (job_update body)) (some job)
context_call (remove_job id) = call delete ("/jobs/" ++ id) none none
context_call (change_stage id stage) =
    call post ("/jobs/" ++ (id ++ "/stage")) (some (new_stage stage)) (some job)
context_call (get_artifact id type) =
    call get ("/jobs/" ++ (id ++ ("/artifacts/" ++ artifact_name type))) none (some artifact)
context_call (put_artifact id type text) =
    call put ("/jobs/" ++ (id ++ ("/artifacts/" ++ artifact_name type))) (some (content text))
      (some artifact)
context_call get_base = call get "/resume/base" none (some base_resume)
context_call (put_base text) = call put "/resume/base" (some (content text)) (some base_resume)
context_call (list_tailored job_id) =
    record (call get "/resume/tailored" none (some tailored_list)) {
      query = ("jobId", some job_id) ∷ [];
    }
context_call (create_tailored body) =
    call post "/resume/tailored" (some (new_tailored body)) (some tailored_resume)
context_call (create_task body) =
    call post "/ai/tasks" (some (new_task body)) (some create_task_response)
context_call (get_task id) = call get ("/ai/tasks/" ++ id) none (some generation_task)

-- `{ ...ctx, schema, query, headers, body }`; `parse` is the `safeParse` of a schema
abbrev pub parse_by :
    {J T : Type 0} → (Schema → Body J → Option T) → Option Schema → Option (Body J → Option T)
parse_by parse none = none
parse_by parse (some schema) = some (parse schema)

unfoldable pub settings_of :
    {J T : Type 0}
    → (Schema → Body J → Option T)
    → RequestContext
    → ServiceCall
    → CallSettings ServiceBody J T
settings_of parse ctx c = record {
  context = ctx;
  schema = parse_by parse c.schema;
  query = c.query;
  headers = c.headers;
  body = c.body;
  retries = none;
}
