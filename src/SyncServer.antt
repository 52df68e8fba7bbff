-- ===== src/SyncServer.antt =====
-- livtet-sync-server: the daemon that peers pair and sync with.
pub mod RateLimit
pub mod Requests
pub mod Pairing
pub mod WireState
pub mod Pairs
pub mod Wire
pub mod Changes
pub mod Lifecycle
pub mod Pull
pub mod Decide
pub mod Devices
mod Fixtures
mod Tests
