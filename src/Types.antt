-- ===== src/Types.antt =====
-- livtet-types: the leaf value types, each in a module of its own.
pub mod Isbn
pub mod Search
