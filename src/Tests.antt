-- ===== src/Tests.antt =====
-- The theorems at concrete inputs.
pub mod Artifacts
pub mod Cleanup
pub mod Outputs
pub mod Uploads
pub mod Redis
pub mod Chat
pub mod Run
pub mod Sessions
pub mod Routes
pub mod Pending
pub mod Accounts
pub mod Config
