-- ===== src/Storage.antt =====
-- internal/storage: the provider storage over PostgreSQL.
pub mod Db
pub mod Rows
pub mod Exec
pub mod Settings
pub mod Users
pub mod Refresh
pub mod Device
pub mod Lifecycle
pub mod AuthRequests
pub mod Sessions
pub mod Cleanup
pub mod Audit
