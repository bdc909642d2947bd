-- ===== src/ServiceKit.antt =====
-- packages/service-kit/src: what the services share.
pub mod ErrorFilter
pub mod UserId
mod Tests
pub mod ZodPipe
pub mod Readiness
pub mod Env
