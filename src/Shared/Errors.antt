-- ===== src/Shared/Errors.antt =====
-- packages/shared-types/src/common.ts: header names, error codes and their HTTP statuses.
use jobilee.Prelude.{ℕ, String, Option}

abbrev pub user_id_header : String
user_id_header = "x-user-id"

abbrev pub request_id_header : String
request_id_header = "x-request-id"

pub data ErrorCode : Type 0 where
  bad_request unauthorized forbidden not_found conflict : ErrorCode
  payload_too_large rate_limited upstream_error internal : ErrorCode

-- `ERROR_STATUS`
abbrev pub error_status : ErrorCode → ℕ
error_status bad_request = 400
error_status unauthorized = 401
error_status forbidden = 403
error_status not_found = 404
error_status conflict = 409
error_status payload_too_large = 413
error_status rate_limited = 429
error_status upstream_error = 502
error_status internal = 500

-- The envelope `{ error: { code, message, requestId } }`; `details` is left out.
pub record ApiError : Type 0 where
  pub code : ErrorCode
  pub message : String
  pub request_id : Option String

abbrev pub api_error : ErrorCode → String → Option String → ApiError
api_error code message request_id = record {
  code = code;
  message = message;
  request_id = request_id;
}
