-- ===== src/Storage/Refresh.antt =====
-- internal/storage: refresh tokens, from redemption to revocation.
pub mod Tables
pub mod Consume
pub mod Issue
pub mod Revoke
pub mod Entombed
pub mod Reads
pub mod Replayed
pub mod Redeem
pub mod Sound
pub mod Deletion
pub mod Ends
pub mod Reach
pub mod Replay
pub mod Grace
pub mod CodeOnce
mod Tests
