-- ===== src/HttpClient/Services/Tests.antt =====
-- A client of jobs-service that stores an artifact for a user.
use jobilee.Prelude.{
  ◌≡◌, refl, ℕ, String, none, some, [], ◌∷◌, arith, eq_iff, map, codes, codes_eq, to_lower,
  if◌then◌else◌, Bool-cases, inl, inr, string_eq,
}
use jobilee.Shared.Errors.{user_id_header}
use jobilee.Gateway.Headers.{Headers, header}
use jobilee.Gateway.Pipeline.PlainPath.{is_plain}
use jobilee.Effect.{returned}
use jobilee.Shared.Jobs.{research}
use jobilee.HttpClient.{put}
use jobilee.HttpClient.Client.{RequestContext, ClientOptions, fetch_request, request_headers}
use jobilee.HttpClient.Services.{ServiceBody, put_artifact, context_call, settings_of}
use jobilee.HttpClient.Services.Identity.{AreSpelled, Delivers, user_id-context_call}
use jobilee.ServiceKit.UserId.{user_id}

abbrev client : ClientOptions ServiceBody
client = record {
  base_url = "http://jobs:3002";
  name = "jobs-service";
  retries = 2;
  retry_base_ms = 200;
  headers = ("x-user-id", "nobody") ∷ ("X-Trace", "on") ∷ [];
  url_of = λ path base query. base;
  stringify = λ body. "{}";
}

-- every header in any spelling of `x-user-id`, under that name, and the others as they are
abbrev lowered : String × String → String × String
lowered (k, v) =
    if codes_eq (map to_lower (codes k)) (codes user_id_header) then (user_id_header, v) else (k, v)

abbrev deliver : Headers → Headers
deliver hs = map lowered hs

deliver-header :
    (hs : Headers) (value : String)
    → AreSpelled hs
    → header user_id_header hs ≡ some value
    → header user_id_header (deliver hs) ≡ some value
unfolding header
deliver-header [] value s h = h
deliver-header ((k, v) ∷ hs) value s h =
    elim (Bool-cases (codes_eq (map to_lower (codes k)) (codes user_id_header))) [
      | inl e ↦ ground (arith, deliver-header hs value s.1, eq_iff k user_id_header)
      | inr e ↦ ground (arith, deliver-header hs value s.1, eq_iff k user_id_header)
    ]

deliver-Delivers : Delivers deliver
deliver-Delivers = record { deliver_law = λ hs value s h plain. deliver-header hs value s h }

abbrev bound : RequestContext
bound = record { user_id = some "other"; request_id = some "r1" }

abbrev ctx : RequestContext
ctx = record { user_id = some "u1"; request_id = none }

request_test :
    fetch_request client bound put "/jobs/7/artifacts/RESEARCH" (
      settings_of {J = ℕ} {T = ℕ}
        (λ schema body. none)
        ctx
        (context_call (put_artifact "7" research "text")))
    ≡ record {
      url = "http://jobs:3002/";
      method = put;
      headers =
          ("content-type", "application/json")
          ∷ ("x-request-id", "r1")
          ∷ ("x-user-id", "u1")
          ∷ ("X-Trace", "on")
          ∷ ("accept", "application/json")
          ∷ [];
      payload = some "{}";
    }
unfolding fetch_request settings_of context_call
request_test = refl

user_id-context_call_example :
    user_id {W = ℕ}
      (deliver (
        request_headers client bound put "/jobs/7/artifacts/RESEARCH" (
          settings_of {J = ℕ} {T = ℕ}
            (λ schema body. none)
            ctx
            (context_call (put_artifact "7" research "text")))))
      0
    ≡ returned "u1" 0
unfolding context_call is_plain to_lower
user_id-context_call_example =
    user_id-context_call client {W = ℕ} {J = ℕ} {T = ℕ} deliver (λ schema body. none) bound
      (put_artifact "7" research "text") "u1" none 0 deliver-Delivers (refl, (refl, tt))
      (ground (arith, eq_iff "u1" "")) refl
