-- ===== src/Gateway/Health/Tests.antt =====
-- A gateway in front of two services, of which one does not answer.
use jobilee.Prelude.{
  ◌≡◌, refl, false, true, none, some, ◌==◌, string_eq, if◌then◌else◌, Option, Bool,
}
use jobilee.Gateway.Config.{Config}
use jobilee.Gateway.Routes.{RouteDef}
use jobilee.Gateway.Health.{degraded, ready}

abbrev config : Config
config = record {
  jwt_secret = "s";
  auth_service_url = "http://auth:3001";
  jobs_service_url = some "http://jobs:3002";
  resume_service_url = none;
  ai_service_url = none;
  rate_limit_window_seconds = 60;
  rate_limit_max = 100;
  rate_limit_auth_max = 10;
  trust_proxy = false;
}

abbrev probe : RouteDef → Option Bool
probe route = if route.prefix == "/api/jobs" then none else some true

ready_test : (ready probe config 2500).status ≡ degraded
unfolding ready
ready_test = refl
