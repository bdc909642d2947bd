-- ===== src/Gateway/RateLimit.antt =====
-- services/gateway/src/middleware/rate-limit.ts: fixed windows, counted in Redis.
pub mod Keys
pub mod Budget
use Prim.Native.Char.{code}
use Prim.Native.String.{◌++◌}
use text.Mathlib.Text.{starts_with as text_starts_with}
use jobilee.Prelude.{
  ℕ, ◌+◌, ◌-◌, ◌*◌, ◌/◌, max, String, Bool, true, false, ◌||◌, ◌&&◌, not, Option, none, some, ltb,
  leb, trim, show, ◌==◌, nat_eq, string_eq, if◌then◌else◌,
}
use jobilee.Effect.{Action, pure, catch, ◌>>=◌}
use jobilee.Shared.Errors.{rate_limited, api_error}
use jobilee.Gateway.Headers.{header, set_header}
use jobilee.Gateway.Config.{Config}
use jobilee.Gateway.Routes.{is_public_route}
use jobilee.Gateway.Identity.{GatewayRequest, Exchange, Step, next, respond}

-- `text.split(",")[0]`
unfoldable pub before_comma : String → String
before_comma String.[] = String.[]
before_comma (String.◌∷◌ c s) =
    let rest = before_comma s in if code c == b',' then String.[] else String.◌∷◌ c rest

abbrev first_of_options : Option String → Option String → String
first_of_options (some a) _ = a
first_of_options none (some b) = b
first_of_options none none = "unknown"

abbrev is_truthy : Option String → Bool
is_truthy none = false
is_truthy (some s) = not (s == "")

abbrev value_or_empty : Option String → String
value_or_empty none = ""
value_or_empty (some s) = s

-- `clientIp`
unfoldable pub client_ip : Config → GatewayRequest → String
unfolding before_comma trim header
client_ip config request =
    let forwarded = header "x-forwarded-for" request.headers in
    if is_truthy forwarded && config.trust_proxy
    then trim (before_comma (value_or_empty forwarded))
    else first_of_options request.ip request.remote_address

-- which bucket pays for a request, and how much it may hold
pub record Charge : Type 0 where
  pub key : String
  pub limit : ℕ
  pub bucket : ℕ

-- "authenticated traffic is charged to the user, anonymous traffic to the IP"
unfoldable pub identity_of : Config → Bool → GatewayRequest → String
unfolding client_ip
identity_of config is_auth_route request =
    if is_auth_route || not (is_truthy request.user_id)
    then "ip:" ++ client_ip config request
    else "user:" ++ value_or_empty request.user_id

-- `now` is the first `Date.now()`, in milliseconds
unfoldable pub charge_of : Config → ℕ → GatewayRequest → Charge
unfolding identity_of
charge_of config now request =
    let is_auth_route = is_public_route request.method request.path in
    let bucket = now / 1000 / config.rate_limit_window_seconds in
    record {
      key =
          "ratelimit:"
          ++ ((if is_auth_route then "auth" else "api")
              ++ (":" ++ (identity_of config is_auth_route request ++ (":" ++ show bucket))));
      limit = if is_auth_route then config.rate_limit_auth_max else config.rate_limit_max;
      bucket = bucket;
    }

-- a difference that may be negative, printed
abbrev show_difference : ℕ → ℕ → String
show_difference a b = if leb b a then show (a - b) else "-" ++ show (b - a)

-- The three readings of the clock, in milliseconds.
pub record Clock : Type 0 where
  pub at_start : ℕ
  pub at_headers : ℕ
  pub at_rejection : ℕ

-- seconds from a reading to the end of the bucket's window, as a pair (end, now)
abbrev pub window_end : Config → ℕ → ℕ
window_end config bucket = (bucket + 1) * config.rate_limit_window_seconds

abbrev limit_headers : Config → Clock → Charge → ℕ → Exchange → Exchange
limit_headers config clock charge used x = record x {
  response_headers =
      set_header "RateLimit-Reset"
        (show_difference (window_end config charge.bucket) (clock.at_headers / 1000))
        (set_header "RateLimit-Remaining" (show (charge.limit - used))
          (set_header "RateLimit-Limit" (show charge.limit) x.response_headers));
}

-- `Math.max(1, retryAfter)`
unfoldable pub retry_after : Config → Clock → Charge → ℕ
retry_after config clock charge =
    max 1 (window_end config charge.bucket - clock.at_rejection / 1000)

abbrev too_many : Config → Clock → Charge → Exchange → Step
too_many config clock charge x =
    respond 429
      (api_error rate_limited "Too many requests. Please slow down and try again."
        x.request.request_id)
      (record x {
        response_headers =
            set_header "Retry-After" (show (retry_after config clock charge)) x.response_headers;
      })

-- what follows once Redis has answered `used`
unfoldable pub enforce : Config → Clock → Charge → Exchange → ℕ → Step
enforce config clock charge x used =
    let x' = limit_headers config clock charge used x in
    if ltb charge.limit used then too_many config clock charge x' else next x'

-- `incr_expire key seconds` is the transaction `multi().incr(key).expire(key, seconds).exec()`:
-- it returns the new count, or throws.
module _ {W : Type 0} (incr_expire : String → ℕ → Action W ℕ) (config : Config)
    (clock : Clock) where
  -- `rateLimit`; it fails open
  unfoldable pub rate_limit : Exchange → Action W Step
  unfolding enforce charge_of
  rate_limit x =
      if text_starts_with x.request.path "/api/"
      then (let charge = charge_of config clock.at_start x.request in
          catch
            (do
              used ← incr_expire charge.key config.rate_limit_window_seconds
              pure (enforce config clock charge x used))
            (λ _. pure (next x)))
      else pure (next x)
