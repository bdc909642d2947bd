-- ===== src/HttpClient.antt =====
-- packages/http-client/src: the client that the services call each other with. A response's text,
-- JSON and the schemas are third-party code and parameters; the log lines are left out.
pub mod Errors
pub mod Bounds
pub mod Client
pub mod Services
mod Tests
use Prim.Native.String.{◌++◌}
use jobilee.Prelude.{
  ℕ, zero, suc, ◌+◌, ◌-◌, ◌*◌, ◌^◌, min, String, Bool, true, false, not, ◌&&◌, Option, none, some,
  ltb, leb, show, ◌==◌, nat_eq, string_eq, if◌then◌else◌,
}
use jobilee.Effect.{Action, Outcome, pure, throw, catch, ◌>>=◌, ◌>>◌}
use jobilee.Thrown.{Thrown, http_error, HttpError, retryable}
use jobilee.Shared.Errors.{ErrorCode, upstream_error, internal, error_status, ApiError}
use jobilee.Gateway.Headers.{Headers}
use jobilee.HttpClient.Errors.{status_to_error_code}

pub data Method : Type 0 where
  get post patch put delete : Method

-- `IDEMPOTENT`
abbrev pub is_idempotent : Method → Bool
is_idempotent get = true
is_idempotent put = true
is_idempotent delete = true
is_idempotent _ = false

abbrev pub method_name : Method → String
method_name get = "GET"
method_name post = "POST"
method_name patch = "PATCH"
method_name put = "PUT"
method_name delete = "DELETE"

pub record Response : Type 0 where
  pub status : ℕ
  pub body_text : String

-- `response.ok`
abbrev pub is_ok : Response → Bool
is_ok r = leb 200 r.status && ltb r.status 300

-- what `readBody` returns
pub data Body (J : Type 0) : Type 0 where
  no_body : Body J
  json : J → Body J
  plain : String → Body J

-- what `request` returns
pub data Payload (J T : Type 0) : Type 0 where
  no_content : Payload J T
  unchecked : Body J → Payload J T
  parsed : T → Payload J T

pub record FetchRequest : Type 0 where
  pub url : String
  pub method : Method
  pub headers : Headers
  pub payload : Option String

-- What a client runs on. `fetch` is the fetch with its time-out and the caller's signal, `text` reads
-- a body, and `sleep ceiling` waits a random part of the ceiling, in milliseconds. `aborted` is the
-- caller's signal.
pub record Network (W J : Type 0) : Type 0 where
  pub fetch : FetchRequest → Action W Response
  pub text : Response → Action W String
  pub json_parse : String → Option J
  pub api_error_schema : Body J → Option ApiError
  pub sleep : ℕ → Action W (Unit {0})
  pub aborted : W → Bool
  pub message_of : Thrown → String

-- the options of a client and of a call, `max_attempts` worked out
pub record CallOptions (J T : Type 0) : Type 0 where
  pub name : String
  pub path : String
  pub retry_base_ms : ℕ
  pub max_attempts : ℕ
  pub schema : Option (Body J → Option T)

-- `1 + (opts.retries ?? (IDEMPOTENT.has(method) ? defaultRetries : 0))`
unfoldable pub max_attempts_of : Method → Option ℕ → ℕ → ℕ
max_attempts_of method (some retries) default_retries = 1 + retries
max_attempts_of method none default_retries =
    1 + (if is_idempotent method then default_retries else 0)

-- the bound of `backoff`, of which the source takes a random part
unfoldable pub backoff_ceiling : ℕ → ℕ → ℕ
backoff_ceiling base attempt = min (base * 2 ^ (attempt - 1)) 5_000

-- a turn of the loop ends the call, or `continue`s with an error
pub data Verdict (J T : Type 0) : Type 0 where
  done : Payload J T → Verdict J T
  again : HttpError → Verdict J T

module _ {W J T : Type 0} (network : Network W J) (opts : CallOptions J T)
    (request : FetchRequest) where
  unfoldable pub read_body : Response → Action W (Body J)
  read_body response = do
    text ← network.text response
    pure (
        if text == ""
        then no_body
        else elim (network.json_parse text) [ none ↦ plain text | some value ↦ json value ])

  abbrev pub error_of : ErrorCode → String → ℕ → HttpError
  error_of code message status = record {
    code = code;
    message = message;
    status = status;
    url = request.url;
    method = method_name request.method;
  }

  -- the error of a response, with the code and the message of its body if that is an envelope
  abbrev pub response_error : Response → Option ApiError → HttpError
  response_error response (some e) = error_of e.code e.message response.status
  response_error response none =
      error_of (status_to_error_code response.status)
        (method_name request.method
          ++ (" " ++ (request.url ++ (" failed with " ++ show response.status))))
        response.status

  abbrev pub transport_error : Bool → Thrown → HttpError
  transport_error true cause =
      error_of internal
        (method_name request.method ++ (" " ++ (request.url ++ " aborted by caller"))) 502
  transport_error false cause =
      error_of upstream_error
        (method_name request.method
          ++ (" " ++ (request.url ++ (" failed: " ++ network.message_of cause))))
        502

  abbrev pub wait_and_retry : ℕ → HttpError → Action W (Verdict J T)
  wait_and_retry attempt error = do
    _ ← network.sleep (backoff_ceiling opts.retry_base_ms attempt)
    pure (again error)

  abbrev pub fail_or_retry : ℕ → HttpError → Action W (Verdict J T)
  fail_or_retry attempt error =
      if retryable error && ltb attempt opts.max_attempts
      then wait_and_retry attempt error
      else throw (http_error error)

  abbrev pub checked : Body J → Option (Body J → Option T) → Action W (Verdict J T)
  checked body none = pure (done (unchecked body))
  checked body (some schema) = elim (schema body) [
    | none ↦ throw (
        http_error (
          error_of upstream_error
            (opts.name
              ++ (" returned an unexpected payload for "
                  ++ (method_name request.method ++ (" " ++ opts.path))))
            502))
    | some value ↦ pure (done (parsed value))
  ]

  abbrev pub accept : Response → Action W (Verdict J T)
  accept response = do body ← read_body response; checked body opts.schema

  abbrev pub refuse : ℕ → Response → Action W (Verdict J T)
  refuse attempt response = do
    body ← read_body response
    fail_or_retry attempt (response_error response (network.api_error_schema body))

  abbrev pub judge : ℕ → Response → Action W (Verdict J T)
  judge attempt response =
      if not (is_ok response)
      then refuse attempt response
      else if response.status == 204
      then pure (done no_content)
      else accept response

  -- the `try` block
  unfoldable pub exchange : ℕ → Action W (Verdict J T)
  unfolding read_body backoff_ceiling retryable status_to_error_code
  exchange attempt = do response ← network.fetch request; judge attempt response

  abbrev pub transport_failed : ℕ → Bool → Thrown → Action W (Verdict J T)
  transport_failed attempt aborted cause =
      if not aborted && ltb attempt opts.max_attempts
      then wait_and_retry attempt (transport_error aborted cause)
      else throw (http_error (transport_error aborted cause))

  -- the `catch` block
  unfoldable pub on_error : ℕ → Thrown → Action W (Verdict J T)
  unfolding backoff_ceiling
  on_error attempt (http_error e) w = throw (http_error e) w
  on_error attempt cause w = transport_failed attempt (network.aborted w) cause w

  abbrev pub conclude : (HttpError → Action W (Payload J T)) → Verdict J T → Action W (Payload J T)
  conclude next (done payload) = pure payload
  conclude next (again error) = next error

  abbrev pub exited : Option HttpError → HttpError
  exited none = error_of internal "request loop exited" (error_status internal)
  exited (some e) = e

  -- the loop, with the attempts that are left and the last error
  unfoldable pub run_from : ℕ → ℕ → Option HttpError → Action W (Payload J T)
  unfolding exchange on_error
  run_from zero attempt last = throw (http_error (exited last))
  run_from (suc left) attempt last = do
    verdict ← catch (exchange attempt) (on_error attempt)
    conclude (λ e. run_from left (suc attempt) (some e)) verdict

  unfoldable pub run : Action W (Payload J T)
  unfolding run_from
  run = run_from opts.max_attempts 1 none
