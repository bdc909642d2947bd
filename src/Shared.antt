-- ===== src/Shared.antt =====
-- packages/shared-types/src: the contracts that every service and the web client share.
pub mod Errors
pub mod Ai
pub mod Tailor
pub mod Jobs
pub mod Auth
pub mod Resume
