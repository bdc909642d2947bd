-- ===== src/Ai.antt =====
-- services/ai-service/src: generations, their quota and their delivery.
pub mod Quota
pub mod Prompts
pub mod Tasks
pub mod Generation
pub mod Delivery
pub mod Worker
pub mod Service
pub mod Stream
pub mod Events
mod Tests
pub mod Controller
