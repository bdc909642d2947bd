-- ===== src/Web/Client.antt =====
-- apps/web/src/api/client.ts: a request of the browser, which renews an expired access token once.
-- The network and a response's JSON are parameters.
pub mod Bounds
pub mod Flight
use Prim.Native.String.{◌++◌}
use jobilee.Prelude.{
  String, Bool, true, false, not, ◌&&◌, Option, none, some, [], ◌∷◌, ◌++◌ as append, show, ◌==◌,
  nat_eq, string_eq, if◌then◌else◌,
}
use jobilee.Effect.{Outcome, Action, returned, threw, pure, throw, catch, ◌>>=◌}
use jobilee.Thrown.{other, request_error, RequestError, network, coded}
use jobilee.Shared.Errors.{internal, ApiError}
use jobilee.Gateway.Headers.{Headers}
use jobilee.HttpClient.{Method, post, Response, is_ok}
use jobilee.Web.Tokens.{Tab, get_access_token, set_access_token, get_refresh_token, clear_tokens}

-- `undefined`, a `FormData`, or a value's JSON
pub data WebBody : Type 0 where
  no_body : WebBody
  form_data : String → WebBody
  json_body : String → WebBody

pub record RequestOptions : Type 0 where
  pub method : Method
  pub body : WebBody
  pub skip_refresh : Bool

pub record WebRequest : Type 0 where
  pub url : String
  pub method : Method
  pub headers : Headers
  pub body : WebBody

-- What a page runs on: `fetch`, the reading of a response as JSON, `JSON.stringify({ refreshToken })`,
-- the field `accessToken` of a payload, if reading it does not throw, and `isApiError`.
pub record Browser (N J : Type 0) : Type 0 where
  pub api_base : String
  pub fetch : WebRequest → Action N Response
  pub json : Response → Action N J
  pub stringify_refresh : String → String
  pub access_token_of : J → Option (Option String)
  pub is_api_error : Option J → Option ApiError

-- the tokens of a page and the world outside it
pub record Page (N : Type 0) : Type 0 where
  pub tab : Tab
  pub net : N

abbrev pub is_set : Option String → Bool
is_set none = false
is_set (some token) = not (token == "")

-- the headers of `send`
abbrev pub authorization : Option String → Headers
authorization none = []
authorization (some token) = if token == "" then [] else ("authorization", "Bearer " ++ token) ∷ []

abbrev pub content_type : WebBody → Headers
content_type (json_body _) = ("content-type", "application/json") ∷ []
content_type _ = []

unfoldable pub headers_of : Tab → WebBody → Headers
headers_of tab body =
    ("accept", "application/json")
    ∷ append (authorization (get_access_token tab)) (content_type body)

module _ {N : Type 0} where
  abbrev pub in_page : {A : Type 0} → Tab → Outcome N A → Outcome (Page N) A
  in_page tab (returned a n) = returned a (record { tab = tab; net = n })
  in_page tab (threw e n) = threw e (record { tab = tab; net = n })

  -- a call that does not touch the page's own variables
  abbrev pub outside : {A : Type 0} → Action N A → Action (Page N) A
  outside m page = in_page page.tab (m page.net)

  abbrev pub on_tab : (Tab → Tab) → Action (Page N) (Unit {0})
  on_tab f page = returned tt (record page { tab = f page.tab })

module _ {N J : Type 0} (browser : Browser N J) where
  abbrev pub refresh_request : String → WebRequest
  refresh_request token = record {
    url = browser.api_base ++ "/auth/refresh";
    method = post;
    headers = ("content-type", "application/json") ∷ [];
    body = json_body (browser.stringify_refresh token);
  }

  abbrev pub refused : Action (Page N) Bool
  refused = do _ ← on_tab clear_tokens; pure false

  abbrev pub store_token : Option (Option String) → Action (Page N) Bool
  store_token none = throw other
  store_token (some token) = do _ ← on_tab (set_access_token token); pure true

  abbrev pub renewed : Response → Action (Page N) Bool
  renewed response = do
    data_value ← outside (browser.json response)
    store_token (browser.access_token_of data_value)

  abbrev pub on_refresh_response : Response → Action (Page N) Bool
  on_refresh_response response = if not (is_ok response) then refused else renewed response

  -- the `try` of the refresh
  abbrev pub attempt_refresh : String → Action (Page N) Bool
  attempt_refresh token = do
    response ← outside (browser.fetch (refresh_request token))
    on_refresh_response response

  abbrev pub refresh_with : Option String → Action (Page N) Bool
  refresh_with none = pure false
  refresh_with (some token) =
      if token == "" then pure false else catch (attempt_refresh token) (λ _. pure false)

  -- `refreshAccessToken`, while no other call is at it
  unfoldable pub refresh_access_token : Action (Page N) Bool
  unfolding clear_tokens get_refresh_token
  refresh_access_token page = refresh_with (get_refresh_token page.tab) page

  module _ (path : String) (options : RequestOptions) where
    abbrev pub request_of : Tab → WebRequest
    request_of tab = record {
      url = browser.api_base ++ path;
      method = options.method;
      headers = headers_of tab options.body;
      body = options.body;
    }

    -- `send`
    unfoldable pub send : Action (Page N) Response
    unfolding headers_of
    send page = outside (browser.fetch (request_of page.tab)) page

    abbrev pub unreachable : RequestError
    unreachable = record { code = network; message = "cannot reach the server"; status = 0 }

    unfoldable pub first_send : Action (Page N) Response
    unfolding send
    first_send = catch send (λ _. throw (request_error unreachable))

    unfoldable pub replay : Response → Bool → Action (Page N) Response
    unfolding send
    replay response fresh = if fresh then send else pure response

    unfoldable pub refresh_and_replay : Response → Action (Page N) Response
    unfolding refresh_access_token replay
    refresh_and_replay response = do fresh ← refresh_access_token; replay response fresh

    -- refresh once and replay
    abbrev pub renew : Response → Action (Page N) Response
    renew response =
        if response.status == 401 && not options.skip_refresh
        then refresh_and_replay response
        else pure response

    abbrev pub failure : Response → Option ApiError → RequestError
    failure response (some e) = record {
      code = coded e.code;
      message = e.message;
      status = response.status;
    }
    failure response none = record {
      code = coded internal;
      message = "request failed (" ++ (show response.status ++ ")");
      status = response.status;
    }

    abbrev pub settle : Response → Option J → Action (Page N) (Option J)
    settle response payload =
        if not (is_ok response)
        then throw (request_error (failure response (browser.is_api_error payload)))
        else pure payload

    -- `response.json().catch(() => undefined)`
    abbrev pub read_json : Response → Action (Page N) (Option J)
    read_json response =
        catch (do value ← outside (browser.json response); pure (some value)) (λ _. pure none)

    abbrev pub read_and_settle : Response → Action (Page N) (Option J)
    read_and_settle response = do payload ← read_json response; settle response payload

    abbrev pub unwrap : Response → Action (Page N) (Option J)
    unwrap response = if response.status == 204 then pure none else read_and_settle response

    -- `apiFetch`; `undefined` is `none`
    unfoldable pub api_fetch : Action (Page N) (Option J)
    unfolding first_send refresh_and_replay
    api_fetch = do response ← first_send; answer ← renew response; unwrap answer
