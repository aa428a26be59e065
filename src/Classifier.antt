-- ===== src/Classifier.antt =====
-- src-tauri/src/application/item_classifier.rs: what becomes of a child that the scan finds.
mod Verdicts
mod Tests
use gdom.Base.{
  is_some, String, List, Bool, true, false, not, ◌||◌, Option, none, some, str_eq, any,
  if◌then◌else◌,
}
use gdom.Item.State.{ItemState}
use gdom.Drive.Types.{DriveChild, DriveFolderOwner, folder_mime_type, shortcut_mime_type}

pub data ScanDisposition : Type 0 where
  eligible_folder eligible_file shortcut already_owned_by_target : ScanDisposition
  not_owned_by_source shared_drive trashed : ScanDisposition

unfoldable pub item_state : ScanDisposition → ItemState
item_state eligible_folder = ItemState.eligible
item_state eligible_file = ItemState.eligible
item_state shortcut = ItemState.skipped_shortcut_target
item_state already_owned_by_target = ItemState.skipped_already_owned_by_target
item_state not_owned_by_source = ItemState.skipped_not_owned_by_source
item_state shared_drive = ItemState.skipped_shared_drive
item_state trashed = ItemState.skipped_trashed

unfoldable pub should_recurse : ScanDisposition → Bool
should_recurse eligible_folder = true
should_recurse _ = false

-- `drive_id.as_deref().is_some_and(|id| !id.is_empty())`.
abbrev pub in_shared_drive : Option String → Bool
in_shared_drive none = false
in_shared_drive (some id) = not (str_eq id "")

abbrev pub is_owned_by : String → List DriveFolderOwner → Bool
is_owned_by permission_id = any (λ owner. str_eq owner.permission_id permission_id)

unfoldable pub classify_drive_child : DriveChild → String → String → ScanDisposition
classify_drive_child child source_permission_id target_permission_id =
    if child.trashed
    then trashed
    else if in_shared_drive child.drive_id
    then shared_drive
    else if is_owned_by target_permission_id child.owners
    then already_owned_by_target
    else if not (is_owned_by source_permission_id child.owners)
    then not_owned_by_source
    else if str_eq child.mime_type shortcut_mime_type || is_some child.shortcut_target_id
    then shortcut
    else if str_eq child.mime_type folder_mime_type
    then eligible_folder
    else eligible_file
