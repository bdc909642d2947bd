-- ===== src/Thrown.antt =====
-- What the services throw and catch: the error classes of packages/service-kit/src/errors.ts and
-- packages/http-client/src/errors.ts, the browser's own, and those of the libraries that
-- the source tells apart.
use jobilee.Prelude.{ℕ, String, Bool, Option, ◌||◌, leb, ◌==◌, nat_eq}
use jobilee.Shared.Errors.{ErrorCode}

-- class `HttpError` of the HTTP client; `requestId`, `body` and `cause` are left out
pub record HttpError : Type 0 where
  pub code : ErrorCode
  pub message : String
  pub status : ℕ
  pub url : String
  pub method : String

-- the getter `HttpError.retryable`
unfoldable pub retryable : HttpError → Bool
retryable e = e.status == 429 || leb 500 e.status

-- the code of class `ApiError` of apps/web/src/api/client.ts, and what else of it is read
pub data WebCode : Type 0 where
  network : WebCode
  coded : ErrorCode → WebCode

pub record RequestError : Type 0 where
  pub code : WebCode
  pub message : String
  pub status : ℕ

pub data Thrown : Type 0 where
  app_error : ErrorCode → String → Thrown
  http_error : HttpError → Thrown
  -- a schema's `parse` failed
  zod_error : Thrown
  -- body-parser's error of type "entity.too.large"
  entity_too_large : Thrown
  -- NestJS's own `HttpException`
  http_exception : ℕ → String → Thrown
  -- Prisma's error with code P2002
  unique_violation : Thrown
  -- the SDK's classes: `APIError` stands for what is none of the three above it
  sdk_rate_limit sdk_authentication sdk_connection : Thrown
  sdk_api_error : Option ℕ → Thrown
  -- BullMQ's `UnrecoverableError`
  unrecoverable : String → Thrown
  request_error : RequestError → Thrown
  other : Thrown
