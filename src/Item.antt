-- ===== src/Item.antt =====
-- Items of a migration (gdom-migration/src/item.rs).
pub mod State
pub mod Transitions
pub mod Names
mod Tests
