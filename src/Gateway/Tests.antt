-- ===== src/Gateway/Tests.antt =====
-- The gateway at concrete requests: a store of counters, a token check that knows two tokens, and
-- a glob that compares prefixes.
use text.Mathlib.Text.{starts_with as text_starts_with}
use text.Mathlib.TextPositions.{len-append, slice-append_left}
use Prim.Native.String.{◌++◌ as text_append, slice, len}
use jobilee.Prelude.{
  ℕ, suc, ◌-◌, String, ◌≡◌, refl, Bool, false, ◌&&◌, ◌||◌, Option, none, some, List, [], ◌∷◌, arith,
  eq_iff, ◌==◌, string_eq, if◌then◌else◌, show, min,
}
use jobilee.Effect.{Action, returned}
use jobilee.Redis.{Increments}
use jobilee.Shared.Errors.{unauthorized, ApiError}
use jobilee.Shared.Auth.{access, refresh, JwtClaims}
use jobilee.Gateway.Headers.{Headers, header, set_header, delete_header}
use jobilee.Gateway.Config.{Config}
use jobilee.Gateway.Routes.{is_public_route, build_routes}
use jobilee.Gateway.Identity.{
  GatewayRequest, Exchange, bearer_token, verified_claims, request_id_middleware,
  strip_inbound_user_id, authenticate,
}
use jobilee.Gateway.RateLimit.{Clock, charge_of, rate_limit}
use jobilee.Gateway.RateLimit.Budget.{Arrival, let_through, charged, let_through-min}
use jobilee.Gateway.Pipeline.{Proxy, Forwarded, rejected, dispatch, forward, handle}
use jobilee.Gateway.Pipeline.Security.{
  RespectsPrefix, HasTrustedIdentity, unauthenticated_rejected, forwarded-HasTrustedIdentity,
}

abbrev Counters : Type 0
Counters = String → ℕ

abbrev incr_expire : String → ℕ → Action Counters ℕ
incr_expire key seconds w = returned (suc (w key)) (λ k. if k == key then suc (w key) else w k)

incr_expire-Increments :
    (k : String) (s : ℕ) (w : Counters) → Increments (λ v j. v j) k w (incr_expire k s w)
incr_expire-Increments k s w =
    (refl, ground (arith, eq_iff k k), λ j ne. ground (arith, eq_iff j k))

incr_expire_answers :
    (k : String) (s : ℕ) (w : Counters)
    → (n : ℕ) × (w' : Counters) × (incr_expire k s w ≡ returned n w')
incr_expire_answers k s w = (suc (w k), _, refl)

-- the pattern without its last three characters
abbrev without_glob : String → String
without_glob pattern = slice pattern 0 (len pattern - 3)

abbrev matches : String → String → Bool
matches prefix path =
    text_starts_with path prefix
    && (path == prefix || text_starts_with path (text_append prefix "/"))

abbrev proxy : Proxy
proxy = record {
  path_filter = λ pattern path. matches (without_glob pattern) path;
  path_rewrite = λ prefix to path. text_append to (slice path (len prefix) (len path));
}

without_glob-glob : (prefix : String) → without_glob (text_append prefix "/**") ≡ prefix
without_glob-glob prefix =
    let e : len (text_append prefix "/**") - 3 ≡ len prefix =
      rw (len-append prefix "/**") (omega arith) in
    rw e (slice-append_left prefix "/**")

proxy-RespectsPrefix : RespectsPrefix proxy
proxy-RespectsPrefix = record {
  filter_prefix = λ route path h. ground (arith, without_glob-glob route.prefix);
}

abbrev config : Config
config = record {
  jwt_secret = "secret";
  auth_service_url = "http://auth:3001";
  jobs_service_url = some "http://jobs:3002";
  resume_service_url = none;
  ai_service_url = some "http://ai:3004";
  rate_limit_window_seconds = 60;
  rate_limit_max = 2;
  rate_limit_auth_max = 1;
  trust_proxy = false;
}

abbrev jwt_verify : String → String → Option String
jwt_verify secret token = if token == "good" || token == "old" then some token else none

abbrev parse_claims : String → Option JwtClaims
parse_claims token = some (record {
  sub = "ann";
  email = "ann@example.org";
  typ = if token == "good" then access else refresh;
  iat = 0;
  exp = 900;
})

abbrev request : Headers → String → GatewayRequest
request headers path = record {
  method = "GET";
  path = path;
  headers = headers;
  ip = some "10.0.0.1";
  remote_address = none;
  user_id = none;
  request_id = none;
}

abbrev exchange : GatewayRequest → Exchange
exchange r = record { request = r; response_headers = [] }

-- a client that sends an identity of its own
abbrev spoofed : Exchange
spoofed =
    exchange (request (("x-user-id", "bob") ∷ ("authorization", "Bearer good") ∷ []) "/api/jobs/7")

-- a refresh token where an access token is asked for
abbrev stale : Exchange
stale = exchange (request (("authorization", "Bearer old") ∷ []) "/api/jobs/7")

abbrev clock : ℕ → Clock
clock ms = record { at_start = ms; at_headers = ms; at_rejection = ms }

-- what the jobs service receives for it
abbrev spoofed_forwarded : Forwarded
spoofed_forwarded = record {
  target = "http://jobs:3002";
  path = "/jobs/7";
  method = "GET";
  headers = ("x-user-id", "ann") ∷ ("x-request-id", "id") ∷ ("authorization", "Bearer good") ∷ [];
  timeout = 120_000;
}

forwarded-HasTrustedIdentity_example :
    HasTrustedIdentity jwt_verify parse_claims config spoofed spoofed_forwarded
unfolding handle rate_limit dispatch forward authenticate request_id_middleware
    strip_inbound_user_id build_routes header set_header delete_header bearer_token verified_claims
    charge_of is_public_route
forwarded-HasTrustedIdentity_example =
    forwarded-HasTrustedIdentity jwt_verify parse_claims incr_expire proxy config
      proxy-RespectsPrefix (clock 0) "id" spoofed _ (λ k. 0) _ _ spoofed_forwarded refl

unauthenticated_rejected_example :
    (body : ApiError) × (z : Exchange) × (handle jwt_verify parse_claims incr_expire proxy config
        (clock 0)
        "id"
        stale
        (λ k. 0)
      ≡ returned (rejected 401 body z) (λ k. 0))
    × (body.code ≡ unauthorized)
unfolding verified_claims is_public_route bearer_token header
unauthenticated_rejected_example =
    unauthenticated_rejected jwt_verify parse_claims incr_expire proxy config (clock 0) "id" stale
      (λ k. 0) refl refl (λ claims e t. ground arith)

-- four requests of one address: three meet the limit of two, and one is to sign in
abbrev arrivals : List Arrival
arrivals =
    (clock 1, exchange (request [] "/api/jobs"))
    ∷ (clock 2, exchange (request [] "/api/jobs/1"))
    ∷ (clock 3, exchange (request [] "/api/ai/tasks"))
    ∷ []

abbrev api_key : String
api_key = "ratelimit:api:ip:10.0.0.1:0"

let_through-min_example :
    let_through incr_expire config api_key arrivals (λ k. 0)
    ≡ min (charged config api_key arrivals) 2
unfolding charge_of is_public_route show
let_through-min_example =
    let_through-min (λ v j. v j) incr_expire incr_expire-Increments incr_expire_answers config
      (clock 1) (exchange (request [] "/api/jobs")) arrivals (λ k. 0) (refl, (refl, (refl, tt)))
