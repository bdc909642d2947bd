-- ===== src/Web/Pages.antt =====
-- apps/web/src/routes and components: the state of each page and what its buttons do. What React
-- renders is left out.
pub mod View
pub mod Editor
pub mod JobDetail
pub mod Settings
pub mod AddJob
pub mod SignIn
pub mod Gate
pub mod Files
pub mod Versions
pub mod Panel
mod Tests
