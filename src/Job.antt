-- ===== src/Job.antt =====
-- The migration job of the crate gdom-migration (src/job.rs and its modules).
pub mod Status
pub mod Types
pub mod Roots
pub mod Scanning
pub mod Transfer
pub mod Ops
pub mod Graph
pub mod Invariant
pub mod Histories
pub mod Names
pub mod Tests
