-- ===== src/Gateway/Health.antt =====
-- services/gateway/src/health/health.controller.ts: liveness and readiness. The probes of the
-- services run at the same time and do not depend on each other, so only their answers count.
pub mod Status
mod Tests
use jobilee.Prelude.{
  ℕ, ◌≡◌, ◌+◌, ◌/◌, String, Bool, true, false, Option, none, some, List, [], ◌∷◌, ◌++◌, map, filter,
  length, ◌==◌, nat_eq, string_eq, if◌then◌else◌,
}
use jobilee.Gateway.Config.{Config}
use jobilee.Gateway.Routes.{RouteDef, build_routes}

pub data HealthStatus : Type 0 where
  healthy degraded failing : HealthStatus

-- `Health`; a check is whether the service answered with an ok response
pub record Health : Type 0 where
  pub status : HealthStatus
  pub service : String
  pub uptime_seconds : ℕ
  pub checks : Option (List (String × Bool))

-- `health`, at an uptime in milliseconds
abbrev pub health : ℕ → Health
health uptime = record {
  status = healthy;
  service = "gateway";
  uptime_seconds = uptime / 1000;
  checks = none;
}

-- a probe's result: a response's `ok`, or no response
abbrev pub check : Option Bool → Bool
check none = false
check (some ok) = ok

-- `Object.fromEntries`: a later entry with the same key replaces the value
unfoldable pub put_check : String → Bool → List (String × Bool) → List (String × Bool)
put_check key b [] = (key, b) ∷ []
put_check key b ((k, c) ∷ rest) =
    let put = put_check key b rest in if k == key then (key, b) ∷ rest else (k, c) ∷ put

unfoldable pub from_entries : List (String × Bool) → List (String × Bool) → List (String × Bool)
unfolding put_check
from_entries out [] = out
from_entries out ((k, b) ∷ rest) = from_entries (put_check k b out) rest

abbrev pub is_healthy : String × Bool → Bool
is_healthy (prefix, ok) = ok

-- the `status` of `ready`, by how many services are up of how many
unfoldable pub overall : ℕ → ℕ → HealthStatus
overall up count = if up == count then healthy else if up == 0 then failing else degraded

-- `ready`, with the probe of a route
unfoldable pub ready : (RouteDef → Option Bool) → Config → ℕ → Health
unfolding from_entries build_routes overall
ready probe config uptime =
    let results = map (λ route. (route.prefix, check (probe route))) (build_routes config) in
    let up = length (filter is_healthy results) in
    record {
      status = overall up (length results);
      service = "gateway";
      uptime_seconds = uptime / 1000;
      checks = some (from_entries [] results);
    }
