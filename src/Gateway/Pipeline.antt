-- ===== src/Gateway/Pipeline.antt =====
-- services/gateway/src/main.ts and middleware/proxy.ts: the middlewares in their order, and the
-- proxies behind them. CORS, which answers preflight requests before all of this, is left out, and
-- so is the access log, which lets every request through (Gateway/Metrics).
pub mod Security
pub mod PlainPath
pub mod Routing
mod Tests
use Prim.Native.String.{◌++◌ as text_append}
use jobilee.Prelude.{ℕ, String, Bool, Option, none, some, List, [], ◌∷◌, if◌then◌else◌}
use jobilee.Effect.{Action, pure, ◌>>=◌}
use jobilee.Shared.Errors.{ApiError, api_error, upstream_error}
use jobilee.Shared.Auth.{JwtClaims}
use jobilee.Gateway.Headers.{Headers}
use jobilee.Gateway.Config.{Config}
use jobilee.Gateway.Routes.{RouteDef, build_routes}
use jobilee.Gateway.Identity.{
  GatewayRequest, Exchange, Step, next, respond, request_id_middleware, strip_inbound_user_id,
  authenticate,
}
use jobilee.Gateway.RateLimit.{Clock, rate_limit}

-- what a proxy sends downstream
pub record Forwarded : Type 0 where
  pub target : String
  pub path : String
  pub method : String
  pub headers : Headers
  pub timeout : ℕ

pub data Reply : Type 0 where
  forwarded : RouteDef → Forwarded → Exchange → Reply
  rejected : ℕ → ApiError → Exchange → Reply
  -- no proxy took the request: the gateway's own controllers answer, or 404
  own : Exchange → Reply

abbrev continue : {W : Type 0} → Step → (Exchange → Action W Reply) → Action W Reply
continue (next x) k = k x
continue (respond status body x) k = pure (rejected status body x)

-- What the proxy library does with a pattern and a rewrite rule: `path_filter pattern path` says
-- whether a glob matches, and `path_rewrite prefix to path` replaces the regular expression
-- `^prefix` by `to`.
pub record Proxy : Type 0 where
  pub path_filter : String → String → Bool
  pub path_rewrite : String → String → String → String

-- `createRouteProxy`
unfoldable pub forward : Proxy → RouteDef → GatewayRequest → Forwarded
forward proxy route request = record {
  target = route.target;
  path = proxy.path_rewrite route.prefix route.rewrite_to request.path;
  method = request.method;
  headers = request.headers;
  timeout = if route.long_lived then 0 else 120_000;
}

abbrev pub glob : RouteDef → String
glob route = text_append route.prefix "/**"

-- the loop that mounts the proxies: the first whose filter accepts the path takes the request
unfoldable pub dispatch : Proxy → List RouteDef → Exchange → Reply
unfolding forward
dispatch proxy [] x = own x
dispatch proxy (route ∷ routes) x =
    if proxy.path_filter (glob route) x.request.path
    then forwarded route (forward proxy route x.request) x
    else dispatch proxy routes x

-- the proxy's `error` handler: an upstream that cannot be reached is answered, unless the answer has
-- begun
unfoldable pub on_proxy_error : RouteDef → Bool → Exchange → Option Reply
on_proxy_error route headers_sent x =
    if headers_sent
    then none
    else some (
        rejected 502
          (api_error upstream_error (text_append route.prefix " is unavailable")
            x.request.request_id)
          x)

module _ {W Payload : Type 0} (jwt_verify : String → String → Option Payload)
    (parse_claims : Payload → Option JwtClaims) (incr_expire : String → ℕ → Action W ℕ)
    (proxy : Proxy) (config : Config) where
  -- the order of `app.use` in `bootstrap`
  unfoldable pub handle : Clock → String → Exchange → Action W Reply
  handle clock uuid x =
      continue
        (authenticate jwt_verify parse_claims config
          (strip_inbound_user_id (request_id_middleware uuid x)))
        (λ y. do
          step ← rate_limit incr_expire config clock y
          continue step (λ z. pure (dispatch proxy (build_routes config) z)))
