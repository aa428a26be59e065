-- ===== src/Scan.antt =====
-- The scan of the roots of a job (src-tauri/src/application/scanner.rs).
pub mod Types
pub mod Roots
pub mod Page
pub mod Run
pub mod Progress
pub mod Laws
pub mod Found
pub mod Commits
pub mod Batches
pub mod Cursor
pub mod Pages
pub mod Waves
pub mod Seeds
pub mod Complete
pub mod Safety
pub mod Seeded
pub mod Resumption
pub mod Ends
pub mod Halts
mod TestDrive
mod Tests
