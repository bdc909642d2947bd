-- ===== src/Auth/Tokens.antt =====
-- services/auth-service/src/auth/tokens.service.ts, class `TokensService`.
use jobilee.Prelude.{
  ℕ, ◌+◌, ◌/◌, ◌<◌, String, ◌≡◌, Bool, true, Option, none, some, ◌==◌, if◌then◌else◌,
}
use jobilee.Effect.{Action, pure, throw}
use jobilee.Thrown.{app_error}
use jobilee.Shared.Errors.{unauthorized}
use jobilee.Shared.Auth.{TokenType, access, refresh, token_type_eq, JwtClaims}

pub record Config : Type 0 where
  pub jwt_secret : String
  pub jwt_access_ttl : ℕ
  pub jwt_refresh_ttl : ℕ

-- jose, with the issuer, the audience and the algorithm of the source: `sign secret claims` is a
-- token, `verify secret now token` its payload, or `none` where `jwtVerify` throws at that time.
-- `parse_claims` is `jwtClaimsSchema.safeParse`.
pub record Jose (P : Type 0) : Type 0 where
  pub sign : String → JwtClaims → String
  pub verify : String → ℕ → String → Option P
  pub parse_claims : P → Option JwtClaims

-- A token that has not expired verifies under its secret, and its payload is what was signed. The
-- schema accepts it where the subject is a uuid and the email one: `is_uuid` and `is_email` are
-- zod's tests.
pub record IsLawful {P : Type 0} (jose : Jose P) (is_uuid is_email : String → Bool) : Type 0 where
  pub verify-sign :
      (secret : String) (claims : JwtClaims) (now : ℕ)
      → now < claims.exp
      → is_uuid claims.sub ≡ true
      → is_email claims.email ≡ true
      → (payload : P) × (jose.verify secret now (jose.sign secret claims) ≡ some payload)
        × (jose.parse_claims payload ≡ some claims)

abbrev expected_message : TokenType → String
expected_message access = "expected an access token"
expected_message refresh = "expected a refresh token"

module _ {P : Type 0} (jose : Jose P) (config : Config) where
  -- `sign`; `ms` is the reading of `Date.now()`
  unfoldable pub sign : ℕ → String → String → TokenType → ℕ → String
  sign ms user_id email typ ttl_seconds =
      let now = ms / 1000 in
      jose.sign config.jwt_secret
        (record { sub = user_id; email = email; typ = typ; iat = now; exp = now + ttl_seconds })

  unfoldable pub issue_access_token : ℕ → String → String → String
  unfolding sign
  issue_access_token ms user_id email = sign ms user_id email access config.jwt_access_ttl

  unfoldable pub issue_refresh_token : ℕ → String → String → String
  unfolding sign
  issue_refresh_token ms user_id email = sign ms user_id email refresh config.jwt_refresh_ttl

  abbrev check_type : {W : Type 0} → TokenType → JwtClaims → Action W JwtClaims
  check_type expected claims =
      if claims.typ == expected
      then pure claims
      else throw (app_error unauthorized (expected_message expected))

  abbrev check_claims : {W : Type 0} → TokenType → Option JwtClaims → Action W JwtClaims
  check_claims expected none = throw (app_error unauthorized "malformed token claims")
  check_claims expected (some claims) = check_type expected claims

  abbrev check_payload : {W : Type 0} → TokenType → Option P → Action W JwtClaims
  check_payload expected none = throw (app_error unauthorized "invalid or expired token")
  check_payload expected (some payload) = check_claims expected (jose.parse_claims payload)

  -- `verify`, at a time in seconds
  unfoldable pub verify : {W : Type 0} → ℕ → String → TokenType → Action W JwtClaims
  verify now token expected = check_payload expected (jose.verify config.jwt_secret now token)
