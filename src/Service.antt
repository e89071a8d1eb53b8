-- ===== src/Service.antt =====
-- internal/service: login, callback and device pages, over an interface of the storage.
pub mod Step
pub mod Store
pub mod Access
pub mod Request
pub mod Login
pub mod Callback
pub mod Mcp
pub mod Device
pub mod Prompts
pub mod Recovery
pub mod Approved
pub mod Signup
pub mod Refused
pub mod DeviceApproved
pub mod Answers
pub mod MaxAge
pub mod Rows
mod Tests
