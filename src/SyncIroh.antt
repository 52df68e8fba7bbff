-- ===== src/SyncIroh.antt =====
-- livtet-sync-iroh: the messages between two peers.
pub mod Wire
pub mod Messages
