-- ===== src/Badge.antt =====
-- Trust badges: src/lib/badge-secrets.ts, src/lib/badge-sync.ts and src/lib/badge-rotation.ts.
pub mod Secrets
pub mod Sync
pub mod Rotation
mod Tests
