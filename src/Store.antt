-- ===== src/Store.antt =====
-- The item store: src-tauri/src/application/item_store.rs and
-- src-tauri/src/infrastructure/item_store.rs.
pub mod Rows
pub mod Lookups
pub mod Aggregates
pub mod Sqlite
pub mod Committed
pub mod Batch
pub mod Order
pub mod Lists
pub mod Changes
pub mod Sweeps
mod Tests
