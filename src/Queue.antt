-- ===== src/Queue.antt =====
-- The background job queue, src/services/queue.ts.
pub mod Job
pub mod Table
pub mod Worker
mod Tests
