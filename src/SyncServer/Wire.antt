-- ===== src/SyncServer/Wire.antt =====
-- livtet-sync-server/src/wire.rs: the requests of peers, answered from the local state.
pub mod Access
pub mod Files
pub mod Claims
pub mod Offers
pub mod Dispatch
