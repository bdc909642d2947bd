-- ===== src/Gateway/Identity/Laws.antt =====
-- What a request that passes the identity middlewares carries.
use text.Mathlib.Text.{starts_with as text_starts_with}
use jobilee.Prelude.{
  String, ◌≡◌, ◌≢◌, refl, ◌⊎◌, inl, inr, Bool-cases, Option-cases, ◌==◌, true, false, Option, none,
  some, arith, eq_iff, string_eq,
}
use jobilee.Shared.Errors.{user_id_header, request_id_header, unauthorized, api_error}
use jobilee.Shared.Auth.{access, JwtClaims}
use jobilee.Gateway.Headers.{
  header, set_header, header-delete_self, header-delete_ne, header-set_ne,
}
use jobilee.Gateway.Config.{Config}
use jobilee.Gateway.Routes.{is_public_route}
use jobilee.Gateway.Identity.{
  Exchange, next, respond, request_id_middleware, strip_inbound_user_id, bearer_token,
  verified_claims, authenticate,
}

-- the two middlewares that run before authentication
abbrev pub prepared : String → Exchange → Exchange
prepared uuid x = strip_inbound_user_id (request_id_middleware uuid x)

auth_ne_user_id : ◌≢◌ {A = String} "authorization" user_id_header
auth_ne_user_id = ground (arith, eq_iff "authorization" user_id_header)

auth_ne_request_id : ◌≢◌ {A = String} "authorization" request_id_header
auth_ne_request_id = ground (arith, eq_iff "authorization" request_id_header)

module _ (uuid : String) (x : Exchange) where
  pub user_id-prepared : header user_id_header (prepared uuid x).request.headers ≡ none
  unfolding strip_inbound_user_id
  user_id-prepared = header-delete_self user_id_header _

  pub authorization-prepared :
      header "authorization" (prepared uuid x).request.headers
      ≡ header "authorization" x.request.headers
  unfolding strip_inbound_user_id request_id_middleware
  authorization-prepared =
      rw (header-delete_ne, auth_ne_user_id) (rw (header-set_ne, auth_ne_request_id))

  pub method-prepared : (prepared uuid x).request.method ≡ x.request.method
  unfolding strip_inbound_user_id request_id_middleware
  method-prepared = refl

  pub path-prepared : (prepared uuid x).request.path ≡ x.request.path
  unfolding strip_inbound_user_id request_id_middleware
  path-prepared = refl

module _ {Payload : Type 0} (jwt_verify : String → String → Option Payload)
    (parse_claims : Payload → Option JwtClaims) (config : Config) where
  -- A request that authentication lets through is outside the API or public, and untouched, or it
  -- carries the subject of a verified access token.
  pub authenticate-next :
      (x y : Exchange)
      → authenticate jwt_verify parse_claims config x ≡ next y
      → ((text_starts_with x.request.path "/api/" ≡ false) × (y ≡ x))
        ⊎ ((is_public_route x.request.method x.request.path ≡ true) × (y ≡ x))
        ⊎ ((claims : JwtClaims) × (verified_claims jwt_verify parse_claims config
                (bearer_token (header "authorization" x.request.headers))
              ≡ some claims)
            × (claims.typ ≡ access)
            × (y.request.headers ≡ set_header user_id_header claims.sub x.request.headers)
            × (y.request.path ≡ x.request.path))
  unfolding authenticate
  authenticate-next x y e = ground arith

  -- An API request that is not public and has no verified access token is answered 401.
  pub authenticate_refuses :
      (x : Exchange)
      → text_starts_with x.request.path "/api/" ≡ true
      → is_public_route x.request.method x.request.path ≡ false
      → ((claims : JwtClaims)
          → verified_claims jwt_verify parse_claims config
              (bearer_token (header "authorization" x.request.headers))
            ≡ some claims
          → claims.typ ≢ access)
      → (message : String) × (authenticate jwt_verify parse_claims config x
          ≡ respond 401 (api_error unauthorized message x.request.request_id) x)
  unfolding authenticate
  authenticate_refuses x under private none_valid =
      elim (Bool-cases (bearer_token (header "authorization" x.request.headers) == "")) [
        | inl missing ↦ ("missing bearer token", ground arith)
        | inr present ↦
            elim (Option-cases (
              verified_claims jwt_verify parse_claims config
                (bearer_token (header "authorization" x.request.headers)))) [
                  | inl e ↦ ("invalid or expired token", ground arith)
                  | inr (claims, e) ↦
                      ("expected an access token", ground (arith, none_valid claims e))
                ]
      ]
