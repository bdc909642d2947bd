-- ===== src/Gateway/Identity.antt =====
-- services/gateway/src/middleware/identity.ts and types.ts: the correlation id, the strip of an
-- inbound identity, and authentication.
pub mod Laws
use text.Mathlib.Text.{starts_with as text_starts_with}
use jobilee.Prelude.{
  ℕ, String, Bool, true, false, Option, none, some, codes, starts_with, to_lower, map, slice_from,
  trim, ◌==◌, string_eq, if◌then◌else◌,
}
use jobilee.Shared.Errors.{
  user_id_header, request_id_header, ErrorCode, unauthorized, ApiError, api_error,
}
use jobilee.Shared.Auth.{TokenType, access, refresh, JwtClaims}
use jobilee.Gateway.Headers.{Headers, header, set_header, delete_header}
use jobilee.Gateway.Config.{Config}
use jobilee.Gateway.Routes.{is_public_route}

-- `GatewayRequest`: what the middlewares read and write of an Express request.
pub record GatewayRequest : Type 0 where
  pub method : String
  pub path : String
  pub headers : Headers
  pub ip : Option String
  pub remote_address : Option String
  pub user_id : Option String
  pub request_id : Option String

-- A request with the response headers set so far.
pub record Exchange : Type 0 where
  pub request : GatewayRequest
  pub response_headers : Headers

-- A middleware calls `next()`, or ends the response.
pub data Step : Type 0 where
  next : Exchange → Step
  respond : ℕ → ApiError → Exchange → Step

abbrev or_else : Option String → String → String
or_else none d = d
or_else (some v) d = v

-- `requestIdMiddleware`; `uuid` is the result of `randomUUID()`
unfoldable pub request_id_middleware : String → Exchange → Exchange
unfolding set_header header
request_id_middleware uuid x =
    let id = or_else (header request_id_header x.request.headers) uuid in
    record {
      request = record x.request {
        request_id = some id;
        headers = set_header request_id_header id x.request.headers;
      };
      response_headers = set_header request_id_header id x.response_headers;
    }

-- `stripInboundUserId`
unfoldable pub strip_inbound_user_id : Exchange → Exchange
strip_inbound_user_id x = record x {
  request = record x.request { headers = delete_header user_id_header x.request.headers };
}

-- the token behind "Bearer ", in any case; "" if there is none
unfoldable pub bearer_token : Option String → String
unfolding to_lower slice_from trim
bearer_token authorization =
    let value = or_else authorization "" in
    if starts_with (map to_lower (codes value)) (codes "bearer ")
    then trim (slice_from 7 value)
    else ""

-- `jwt_verify secret token` is jose's `jwtVerify` with the issuer, the audience and the algorithm of
-- the source: `none` where it throws. `parse_claims` is `jwtClaimsSchema.parse`.
module _ {Payload : Type 0} (jwt_verify : String → String → Option Payload)
    (parse_claims : Payload → Option JwtClaims) (config : Config) where
  -- the checks of the `try` block: the claims of an accepted token, or `none` in the `catch`
  unfoldable pub verified_claims : String → Option JwtClaims
  verified_claims token = elim (jwt_verify config.jwt_secret token) [
    | none ↦ none
    | some payload ↦ parse_claims payload
  ]

  abbrev reject : String → Exchange → Step
  reject message x = respond 401 (api_error unauthorized message x.request.request_id) x

  -- the claims are at hand: an access token attaches its subject
  abbrev attach : JwtClaims → TokenType → Exchange → Step
  attach claims refresh x = reject "expected an access token" x
  attach claims access x = next (record x {
    request = record x.request {
      user_id = some claims.sub;
      headers = set_header user_id_header claims.sub x.request.headers;
    };
  })

  abbrev admit : Option JwtClaims → Exchange → Step
  admit none x = reject "invalid or expired token" x
  admit (some claims) x = attach claims claims.typ x

  -- `authenticate`
  unfoldable pub authenticate : Exchange → Step
  authenticate x =
      if text_starts_with x.request.path "/api/"
      then (if is_public_route x.request.method x.request.path
          then next x
          else let token = bearer_token (header "authorization" x.request.headers) in
            if token == ""
            then reject "missing bearer token" x
            else admit (verified_claims token) x)
      else next x
