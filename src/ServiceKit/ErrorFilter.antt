-- ===== src/ServiceKit/ErrorFilter.antt =====
-- packages/service-kit/src/errors.ts, `ErrorEnvelopeFilter`: every failure leaves a service as a
-- status and an envelope.
use jobilee.Prelude.{ℕ, String, ◌≡◌, ◌≢◌, refl, Option, ◌==◌, nat_eq, if◌then◌else◌}
use jobilee.Thrown.{Thrown, app_error, zod_error, entity_too_large, http_exception}
use jobilee.Shared.Errors.{
  ErrorCode, bad_request, unauthorized, forbidden, not_found, conflict, payload_too_large,
  rate_limited, internal, error_status, ApiError, api_error,
}

-- `STATUS_TO_CODE[status] ?? "INTERNAL"`
unfoldable pub status_to_code : ℕ → ErrorCode
status_to_code status =
    if status == 400
    then bad_request
    else if status == 401
    then unauthorized
    else if status == 403
    then forbidden
    else if status == 404
    then not_found
    else if status == 409
    then conflict
    else if status == 413
    then payload_too_large
    else if status == 429
    then rate_limited
    else internal

pub record Answer : Type 0 where
  pub status : ℕ
  pub body : ApiError

abbrev answer : ℕ → ErrorCode → String → Option String → Answer
answer status code message request_id = record {
  status = status;
  body = api_error code message request_id;
}

-- `catch`, for the request id of the request
unfoldable pub envelope : Option String → Thrown → Answer
unfolding status_to_code
envelope request_id (app_error code message) = answer (error_status code) code message request_id
envelope request_id zod_error = answer 400 bad_request "request validation failed" request_id
envelope request_id entity_too_large =
    answer 413 payload_too_large "request body is too large" request_id
envelope request_id (http_exception status message) =
    answer status (status_to_code status) message request_id
envelope request_id _ = answer 500 internal "internal server error" request_id

-- Except for NestJS's own exceptions, an answer has the status of its code.
pub envelope-error_status :
    (request_id : Option String) (e : Thrown)
    → ((status : ℕ) (message : String) → e ≢ http_exception status message)
    → (envelope request_id e).status ≡ error_status (envelope request_id e).body.code
unfolding envelope
envelope-error_status id (app_error code message) h = refl
envelope-error_status id zod_error h = refl
envelope-error_status id entity_too_large h = refl
envelope-error_status id (http_exception status message) h = absurd (h status message refl)
envelope-error_status id e h = refl
