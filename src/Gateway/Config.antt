-- ===== src/Gateway/Config.antt =====
-- services/gateway/src/config.ts: the parsed environment. The port, the log level and the CORS
-- origin do not affect a request's way through the gateway and are left out; `TRUST_PROXY`, which
-- the rate limiter reads from the environment, is a field.
use jobilee.Prelude.{ℕ, String, Bool, Option}

pub record Config : Type 0 where
  pub jwt_secret : String
  pub auth_service_url : String
  pub jobs_service_url : Option String
  pub resume_service_url : Option String
  pub ai_service_url : Option String
  pub rate_limit_window_seconds : ℕ
  pub rate_limit_max : ℕ
  pub rate_limit_auth_max : ℕ
  pub trust_proxy : Bool
