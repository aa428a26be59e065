-- ===== src/Transfer.antt =====
-- The ownership transfer (src-tauri/src/application/transfer.rs).
pub mod Types
pub mod Steps
pub mod Item
pub mod Run
pub mod Reached
pub mod Hoare
pub mod Rules
pub mod Table
pub mod Parts
pub mod Soundness
pub mod Verification
pub mod Outcome
pub mod Guarantees
pub mod Counts
pub mod Halts
pub mod Runs
pub mod Retries
pub mod Parents
pub mod Checkpoint
pub mod ReadOnly
mod TestDrive
mod Tests
mod RunTests
