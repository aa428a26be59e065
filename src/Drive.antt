-- ===== src/Drive.antt =====
-- What Google Drive tells the program: src-tauri/src/application/drive_folder.rs, drive_tree.rs and
-- drive_transfer.rs. Drive itself is a parameter of the modules that call it.
pub mod Types
pub mod Failure
