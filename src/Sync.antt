-- ===== src/Sync.antt =====
-- livtet-sync: the change log, its conflicts, and the engine that pushes, pulls and applies changes.
pub mod Types
pub mod Entities
pub mod Store
pub mod Json
pub mod Apply
pub mod Push
pub mod Receive
pub mod Query
pub mod Full
mod Tests
