-- ===== src/Commercial.antt =====
-- The commercial engine: src/services/commercialEngine.ts.
pub mod Money
pub mod Tables
pub mod Digest
pub mod Subscriptions
pub mod Commitment
pub mod Invoices
pub mod Scores
pub mod Underwriting
pub mod Tokens
pub mod Results
pub mod System
pub mod Lifecycle
pub mod Reads
mod Sample
mod Tests
