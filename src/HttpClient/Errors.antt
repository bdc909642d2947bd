-- ===== src/HttpClient/Errors.antt =====
-- packages/http-client/src/errors.ts, `statusToErrorCode`.
use jobilee.Prelude.{ℕ, ◌≡◌, ◌≢◌, refl, leb, ◌==◌, nat_eq, if◌then◌else◌}
use jobilee.Shared.Errors.{
  error_status, payload_too_large, ErrorCode, bad_request, unauthorized, forbidden, not_found,
  conflict, rate_limited, upstream_error, internal,
}

unfoldable pub status_to_error_code : ℕ → ErrorCode
status_to_error_code status =
    if status == 400
    then bad_request
    else if status == 401
    then unauthorized
    else if status == 403
    then forbidden
    else if status == 404
    then not_found
    else if status == 409
    then conflict
    else if status == 429
    then rate_limited
    else if leb 500 status
    then upstream_error
    else internal

-- The client recovers the code of a status that a service answers, but for 413 and for 500.
pub status_to_error_code-error_status :
    (code : ErrorCode)
    → code ≢ payload_too_large
    → code ≢ internal
    → status_to_error_code (error_status code) ≡ code
unfolding status_to_error_code
status_to_error_code-error_status bad_request _ _ = refl
status_to_error_code-error_status unauthorized _ _ = refl
status_to_error_code-error_status forbidden _ _ = refl
status_to_error_code-error_status not_found _ _ = refl
status_to_error_code-error_status conflict _ _ = refl
status_to_error_code-error_status payload_too_large h _ = absurd (h refl)
status_to_error_code-error_status rate_limited _ _ = refl
status_to_error_code-error_status upstream_error _ _ = refl
status_to_error_code-error_status internal _ h = absurd (h refl)
