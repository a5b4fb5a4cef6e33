-- ===== src/Access.antt =====
-- Access by plane, role and tenant: src/middleware/dualPlaneAuth.ts.
pub mod Roles
pub mod Boundary
pub mod Middleware
pub mod Guards
pub mod Laws
pub mod Metrics
mod Tests
