-- ===== src/Types/Search.antt =====
-- livtet-types/src/search: saved searches, their placeholders, and their composition to one query.
pub mod Dsl
pub mod Kinds
pub mod Identifier
pub mod Saved
pub mod Placeholder
pub mod Calendar
pub mod Substitute
pub mod Compose
mod Tests
