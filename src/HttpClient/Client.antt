-- ===== src/HttpClient/Client.antt =====
-- packages/http-client/src/client.ts: `contextHeaders`, `buildUrl`, `createHttpClient` and what its
-- `request` sends. The WHATWG URL and `JSON.stringify` are parameters.
use Prim.Native.String.{[], ◌∷◌, ◌++◌}
use Prim.Native.Char.{code}
use jobilee.Prelude.{ℕ, String, Option, none, some, List, ◌==◌, nat_eq, string_eq, if◌then◌else◌}
use jobilee.Effect.{Action}
use jobilee.Shared.Errors.{user_id_header, request_id_header}
use jobilee.Gateway.Headers.{Headers, set_header}
use jobilee.HttpClient.{
  Method, Body, Payload, FetchRequest, Network, CallOptions, max_attempts_of, run,
}

pub record RequestContext : Type 0 where
  pub user_id : Option String
  pub request_id : Option String

-- `if (value) headers[name] = value`
abbrev pub set_if : String → Option String → Headers → Headers
set_if name none hs = hs
set_if name (some value) hs = if value == "" then hs else set_header name value hs

-- `{ ...hs, ...contextHeaders(ctx) }`
unfoldable pub with_context_headers : RequestContext → Headers → Headers
unfolding set_header
with_context_headers ctx hs =
    set_if request_id_header ctx.request_id (set_if user_id_header ctx.user_id hs)

-- `{ ...hs, ...extra }`
unfoldable pub with_headers : Headers → Headers → Headers
unfolding set_header
with_headers List.[] hs = hs
with_headers (List.◌∷◌ (name, value) extra) hs = with_headers extra (set_header name value hs)

-- `bearer`
abbrev pub bearer : String → Headers
bearer token = List.◌∷◌ ("authorization", "Bearer " ++ token) List.[]

-- `path.replace(/^\//, "")`
unfoldable pub relative : String → String
relative [] = []
relative (c ∷ s) = if code c == b'/' then s else c ∷ s

-- `baseUrl.endsWith("/") ? baseUrl : baseUrl + "/"`
unfoldable pub as_directory : String → String
as_directory [] = "/"
as_directory (c ∷ s) =
    let rest = as_directory s in
    if s == "" then (if code c == b'/' then c ∷ s else c ∷ ("/")) else c ∷ rest

-- the entries of `query` that are not undefined
abbrev pub defined : List (String × Option String) → List (String × String)
defined List.[] = List.[]
defined (List.◌∷◌ (k, none) rest) = defined rest
defined (List.◌∷◌ (k, some v) rest) = List.◌∷◌ (k, v) (defined rest)

-- the options of a client, with `new URL(path, base)` and its search parameters, and `JSON.stringify`
pub record ClientOptions (B : Type 0) : Type 0 where
  pub base_url : String
  pub name : String
  pub retries : ℕ
  pub retry_base_ms : ℕ
  pub headers : Headers
  pub url_of : String → String → List (String × String) → String
  pub stringify : B → String

-- `RequestOptions`
pub record CallSettings (B J T : Type 0) : Type 0 where
  pub context : RequestContext
  pub schema : Option (Body J → Option T)
  pub query : List (String × Option String)
  pub headers : Headers
  pub body : Option B
  pub retries : Option ℕ

abbrev pub or_bound : Option String → Option String → Option String
or_bound none bound = bound
or_bound (some s) bound = some s

-- `{ userId: opts.userId ?? boundCtx.userId, … }`
abbrev pub context_of : RequestContext → RequestContext → RequestContext
context_of own bound = record {
  user_id = or_bound own.user_id bound.user_id;
  request_id = or_bound own.request_id bound.request_id;
}

module _ {B : Type 0} (client : ClientOptions B) where
  -- `buildUrl`
  unfoldable pub build_url : String → List (String × Option String) → String
  unfolding relative as_directory
  build_url path query =
      client.url_of (relative path) (as_directory client.base_url) (defined query)

  unfoldable pub with_content_type : Option B → Headers → Headers
  unfolding set_header
  with_content_type none hs = hs
  with_content_type (some body) hs = set_header "content-type" "application/json" hs

  abbrev pub body_text_of : Option B → Option String
  body_text_of none = none
  body_text_of (some body) = some (client.stringify body)

  module _ {J T : Type 0} (bound : RequestContext) (method : Method) (path : String)
      (settings : CallSettings B J T) where
    -- `headers`
    unfoldable pub request_headers : Headers
    unfolding with_context_headers with_headers with_content_type
    request_headers = with_content_type settings.body (
        with_headers settings.headers (
          with_context_headers (context_of settings.context bound)
            (with_headers client.headers (List.◌∷◌ ("accept", "application/json") List.[]))))

    -- what `fetch` is called with
    unfoldable pub fetch_request : FetchRequest
    unfolding build_url request_headers
    fetch_request = record {
      url = build_url path settings.query;
      method = method;
      headers = request_headers;
      payload = body_text_of settings.body;
    }

    unfoldable pub call_options : CallOptions J T
    unfolding max_attempts_of
    call_options = record {
      name = client.name;
      path = path;
      retry_base_ms = client.retry_base_ms;
      max_attempts = max_attempts_of method settings.retries client.retries;
      schema = settings.schema;
    }

    -- `request`
    unfoldable pub request : {W : Type 0} → Network W J → Action W (Payload J T)
    unfolding run fetch_request call_options
    request network = run network call_options fetch_request
