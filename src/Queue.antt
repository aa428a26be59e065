-- ===== src/Queue.antt =====
-- The queue of jobs (src-tauri/src/application/queue_service.rs).
pub mod Errors
pub mod Plan
pub mod Order
pub mod Moved
pub mod Sorted
pub mod Removal
mod Tests
