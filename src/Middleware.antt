-- ===== src/Middleware.antt =====
-- internal/middleware: what stands between the provider's answers and the client.
pub mod Header
pub mod Cors
pub mod Enforced
pub mod TokenProfile
pub mod Fields
pub mod Bound
mod Scoped
pub mod Released
mod Tests
