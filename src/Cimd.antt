-- ===== src/Cimd.antt =====
-- internal/adapter/mcp: clients that are described by a document at their client_id, an https URL.
pub mod Url
pub mod Hosts
pub mod CacheControl
pub mod Metadata
pub mod Fetcher
pub mod Lifetimes
pub mod Allowed
pub mod Documents
pub mod Sound
pub mod Again
mod Tests
