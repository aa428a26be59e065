-- ===== src/Service.antt =====
-- The service of the jobs (src-tauri/src/application/job_service.rs), as far as it is modelled.
pub mod Startup
pub mod Laws
pub mod Turns
pub mod Rested
mod Tests
