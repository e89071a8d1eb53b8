-- ===== src/Signing.antt =====
-- internal/signing: the signing key bundle, the keys that it publishes and the provider that serves it.
pub mod Json
pub mod Scan
pub mod Accepted
mod Documents
pub mod Keys
pub mod Bundle
pub mod Sound
pub mod Distinct
pub mod Parsed
pub mod Provider
pub mod Served
pub mod Integers
mod Tests
