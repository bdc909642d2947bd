-- ===== src/Gateway.antt =====
-- services/gateway/src: the only way in from outside.
pub mod Headers
pub mod Config
pub mod Routes
pub mod Identity
pub mod RateLimit
pub mod Pipeline
pub mod Metrics
pub mod Health
mod Tests
