-- ===== src/Auth.antt =====
-- services/auth-service/src/auth: accounts, sessions and tokens.
pub mod Tokens
pub mod Service
pub mod Sessions
mod Tests
pub mod Controller
