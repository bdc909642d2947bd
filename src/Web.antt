-- ===== src/Web.antt =====
-- apps/web/src/api: the browser's client of the gateway.
pub mod Sse
pub mod Tokens
pub mod Client
pub mod Generation
pub mod Session
pub mod Board
pub mod Queries
pub mod Pages
pub mod Requests
mod Tests
