-- ===== src/Report.antt =====
-- The reports of a job (src-tauri/src/application/final_report.rs and preflight.rs).
pub mod Counts
pub mod Csv
mod Cells
mod Totals
mod Tests
