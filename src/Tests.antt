-- ===== src/Tests.antt =====
-- The theorems at concrete inputs.
pub mod Fixtures
mod Uploads
mod Handlers
mod Logging
mod Downloads
mod Readers
mod Disposers
mod Sessions
mod Managers
mod Stores
mod BlobSessions
