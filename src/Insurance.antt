-- ===== src/Insurance.antt =====
-- Insurance warranties: src/routes/insurance.ts and src/lib/recompute-scheduler.ts.
pub mod Evaluate
pub mod Recompute
pub mod Handlers
pub mod Scheduler
mod Tests
