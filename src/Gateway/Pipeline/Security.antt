-- ===== src/Gateway/Pipeline/Security.antt =====
-- Which requests reach a downstream service, and with which identity.
use Prim.Native.String.{◌++◌ as text_append}
use text.Mathlib.Text.{starts_with as text_starts_with}
use text.Mathlib.TextEquality.{starts_with_iff}
use text.Mathlib.TextLemmas.{append_assoc as text_append_assoc}
use jobilee.Prelude.{
  ℕ, String, ◌≡◌, refl, ap, ◌≢◌, sym, subst, ◌∙◌, ◌⊎◌, inl, inr, Bool, true, false, Option, none,
  some, List, [], ◌∷◌, All, arith, Bool-cases, string_eq,
}
use jobilee.Effect.{Action, Outcome, returned, threw}
use jobilee.Shared.Errors.{user_id_header, unauthorized, ApiError, api_error}
use jobilee.Shared.Auth.{access, JwtClaims}
use jobilee.Gateway.Headers.{header, header-set_self}
use jobilee.Gateway.Config.{Config}
use jobilee.Gateway.Routes.{RouteDef, build_routes, is_public_route, optional_route}
use jobilee.Gateway.Identity.{
  Exchange, Step, next, respond, bearer_token, verified_claims, authenticate,
}
use jobilee.Gateway.Identity.Laws.{
  prepared, user_id-prepared, authorization-prepared, method-prepared, path-prepared,
  authenticate-next, authenticate_refuses,
}
use jobilee.Gateway.RateLimit.{Clock, rate_limit, enforce}
use jobilee.Gateway.Pipeline.{
  Proxy, Forwarded, Reply, forwarded, rejected, continue, glob, dispatch, handle,
}

starts_with_trans :
    (a b c : String)
    → text_starts_with a b ≡ true
    → text_starts_with b c ≡ true
    → text_starts_with a c ≡ true
starts_with_trans a b c p q =
    let (v, e) = (starts_with_iff a b).0 p in
    let (u, f) = (starts_with_iff b c).0 q in
    (starts_with_iff a c).1
      (text_append u v, sym (text_append_assoc c u v) ∙ ap (λ s. text_append s v) f ∙ e)

-- every proxied prefix lies under /api/
abbrev IsUnderApi : RouteDef → Type 0
IsUnderApi route = text_starts_with route.prefix "/api/" ≡ true

optional_route-All :
    (url : Option String) (prefix to : String) (long : Bool) (rest : List RouteDef)
    → text_starts_with prefix "/api/" ≡ true
    → All IsUnderApi rest
    → All IsUnderApi (optional_route url prefix to long rest)
optional_route-All none prefix to long rest h k = k
optional_route-All (some url) prefix to long rest h k = (h, k)

build_routes-All : (config : Config) → All IsUnderApi (build_routes config)
unfolding build_routes
build_routes-All config = (
  refl,
  optional_route-All config.jobs_service_url _ _ _ _ refl (
      optional_route-All config.resume_service_url _ _ _ _ refl
        (optional_route-All config.ai_service_url _ _ _ _ refl tt)),
)

-- What the gateway relies on of the glob: `prefix/**` matches only what begins with the prefix.
pub record RespectsPrefix (proxy : Proxy) : Type 0 where
  pub filter_prefix :
      (route : RouteDef) (path : String)
      → proxy.path_filter (glob route) path ≡ true
      → text_starts_with path route.prefix ≡ true

module _ (proxy : Proxy) (respects : RespectsPrefix proxy) where
  dispatch-forwarded :
      (routes : List RouteDef) (x z : Exchange) (r : RouteDef) (f : Forwarded)
      → All IsUnderApi routes
      → dispatch proxy routes x ≡ forwarded r f z
      → (f.headers ≡ x.request.headers) × (text_starts_with x.request.path "/api/" ≡ true)
  unfolding dispatch
  dispatch-forwarded [] x z r f h e = cc
  dispatch-forwarded (route ∷ routes) x z r f (u, us) e =
      elim (Bool-cases (proxy.path_filter (glob route) x.request.path)) [
        | inl hit ↦ (
          ground arith,
          starts_with_trans x.request.path route.prefix "/api/"
              (respects.filter_prefix route x.request.path hit) u,
        )
        | inr miss ↦ dispatch-forwarded routes x z r f us (ground arith)
      ]

rate_limit-next :
    {W : Type 0} (incr_expire : String → ℕ → Action W ℕ) (config : Config) (clock : Clock)
    (x y : Exchange) (w w' : W)
    → rate_limit incr_expire config clock x w ≡ returned (next y) w'
    → y.request ≡ x.request
unfolding rate_limit enforce
rate_limit-next incr_expire config clock x y w w' e = ground arith

continue-forwarded :
    {W : Type 0} (s : Step) (k : Exchange → Action W Reply) {w w' : W} {r : RouteDef}
    {f : Forwarded} {z : Exchange}
    → continue s k w ≡ returned (forwarded r f z) w'
    → (y : Exchange) × (s ≡ next y) × (k y w ≡ returned (forwarded r f z) w')
continue-forwarded (next y) k e = (y, refl, e)
continue-forwarded (respond status body y) k e = cc

-- The rest of the pipeline behind an outcome of the rate limiter.
bind-forwarded :
    {W : Type 0} (o : Outcome W Step) (k : Exchange → Reply) {w' : W} {r : RouteDef} {f : Forwarded}
    {z : Exchange}
    → Path
        (Outcome W Reply)
        (elim o [
          | returned step w₁ ↦ continue step (λ y v. returned (k y) v) w₁
          | threw err w₁ ↦ threw err w₁
        ])
        (returned (forwarded r f z) w')
    → (y : Exchange) × (w₁ : W) × (o ≡ returned (next y) w₁) × (k y ≡ forwarded r f z)
bind-forwarded (returned (next y) w₁) k e = (y, w₁, refl, ground arith)
bind-forwarded (returned (respond status body y) w₁) k e = cc
bind-forwarded (threw err w₁) k e = cc

module _ {Payload : Type 0} (jwt_verify : String → String → Option Payload)
    (parse_claims : Payload → Option JwtClaims) (config : Config) where
  -- The identity of a forwarded request: none on a public endpoint, else the subject of a verified
  -- access token.
  abbrev pub HasTrustedIdentity : Exchange → Forwarded → Type 0
  HasTrustedIdentity x f =
      ((is_public_route x.request.method x.request.path ≡ true)
        × (header user_id_header f.headers ≡ none))
      ⊎ ((claims : JwtClaims) × (verified_claims jwt_verify parse_claims config
              (bearer_token (header "authorization" x.request.headers))
            ≡ some claims)
          × (claims.typ ≡ access)
          × (header user_id_header f.headers ≡ some claims.sub))

  authenticated_identity :
      (uuid : String) (x y : Exchange) (f : Forwarded)
      → authenticate jwt_verify parse_claims config (prepared uuid x) ≡ next y
      → f.headers ≡ y.request.headers
      → text_starts_with y.request.path "/api/" ≡ true
      → HasTrustedIdentity x f
  authenticated_identity uuid x y f a same under =
      elim (authenticate-next jwt_verify parse_claims config (prepared uuid x) y a) [
        | inl (outside, e) ↦ absurd (cc e)
        | inr (inl (public, e)) ↦
            inl (
              rw (method-prepared, path-prepared) at public,
              rw (same, e) (user_id-prepared uuid x),
            )
        | inr (inr (claims, v, t, hs, p)) ↦ inr (
          claims,
          rw authorization-prepared at v,
          t,
          rw (same, hs) (header-set_self user_id_header claims.sub _),
        )
      ]

module _ {W Payload : Type 0} (jwt_verify : String → String → Option Payload)
    (parse_claims : Payload → Option JwtClaims) (incr_expire : String → ℕ → Action W ℕ)
    (proxy : Proxy) (config : Config) where
  -- Any other API request that is not for a public endpoint is answered 401 by the gateway itself:
  -- no service is called, and no counter of the rate limiter moves.
  pub unauthenticated_rejected :
      (clock : Clock) (uuid : String) (x : Exchange) (w : W)
      → text_starts_with x.request.path "/api/" ≡ true
      → is_public_route x.request.method x.request.path ≡ false
      → ((claims : JwtClaims)
          → verified_claims jwt_verify parse_claims config
              (bearer_token (header "authorization" x.request.headers))
            ≡ some claims
          → claims.typ ≢ access)
      → (body : ApiError) × (z : Exchange) × (handle jwt_verify parse_claims incr_expire proxy
            config clock uuid x w
          ≡ returned (rejected 401 body z) w)
        × (body.code ≡ unauthorized)
  unfolding handle
  unauthenticated_rejected clock uuid x w under private none_valid =
      let (message, e) =
        authenticate_refuses jwt_verify parse_claims config (prepared uuid x)
          (rw path-prepared under) (rw (method-prepared, path-prepared) private)
          (rw authorization-prepared none_valid) in
      (
        api_error unauthorized message (prepared uuid x).request.request_id,
        prepared uuid x,
        rw e,
        refl,
      )

  -- A request that reaches a downstream service carries an `x-user-id` header only if it came with
  -- a verified access token, and then the header is the token's subject, whatever the client sent;
  -- without such a token only the public endpoints are forwarded.
  pub forwarded-HasTrustedIdentity :
      RespectsPrefix proxy
      → (clock : Clock) (uuid : String) (x z : Exchange) (w w' : W) (route : RouteDef)
        (f : Forwarded)
      → handle jwt_verify parse_claims incr_expire proxy config clock uuid x w
        ≡ returned (forwarded route f z) w'
      → HasTrustedIdentity jwt_verify parse_claims config x f
  unfolding handle
  forwarded-HasTrustedIdentity respects clock uuid x z w w' route f e =
      let (y, a, rest) = continue-forwarded _ _ e in
      let (y', w₁, l, d) = bind-forwarded (rate_limit incr_expire config clock y w) _ rest in
      let same = rate_limit-next incr_expire config clock y y' w w₁ l in
      let (hs, under) =
        dispatch-forwarded proxy respects (build_routes config) y' z route f
          (build_routes-All config) d in
      authenticated_identity jwt_verify parse_claims config uuid x y f a
        (hs ∙ ap (λ q. q.headers) same)
        (subst (λ q. text_starts_with q.path "/api/" ≡ true) same under)
