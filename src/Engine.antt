-- ===== src/Engine.antt =====
-- The policy and verification engine: src/types/domain.ts and src/engine.
pub mod Domain
pub mod Policy
pub mod Condition
pub mod Verification
mod Tests
