-- ===== src/RateLimit.antt =====
-- The token-bucket rate limiter, src/middleware/rateLimiter.ts.
pub mod Bucket
pub mod Store
pub mod Middleware
mod Tests
