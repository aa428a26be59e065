-- ===== src/Classifier/Tests.antt =====
-- A folder of the source, met by the scan.
use gdom.Base.{◌≡◌, ◌↔◌, true, false, none, [], ◌∷◌}
use gdom.Item.State.{is_transfer_active, is_skipped}
use gdom.Drive.Types.{DriveChild, folder_mime_type}
use gdom.Classifier.{item_state, should_recurse, classify_drive_child}
use gdom.Classifier.Verdicts.{IsMovable, classify-IsMovable, classify-recurse}

abbrev folder : DriveChild
folder = record {
  id = "f";
  name = "Folder";
  mime_type = folder_mime_type;
  parents = [];
  owners = record { permission_id = "source"; email_address = none; avatar_url = none } ∷ [];
  drive_id = none;
  quota_bytes_used = none;
  trashed = false;
  shortcut_target_id = none;
  shortcut_target_mime_type = none;
  shortcut_target_resource_key = none;
  resource_key = none;
  modified_time = none;
  web_view_link = none;
}

-- The folder enters the transfer as far as it is movable.
classify-IsMovable_example :
    let state = item_state (classify_drive_child folder "source" "target") in
    ((is_transfer_active state ≡ true) ↔ IsMovable folder "source" "target")
    × ((is_transfer_active state ≡ false) ↔ (is_skipped state ≡ true))
classify-IsMovable_example = classify-IsMovable folder "source" "target"

-- The scan goes down into it as far as it is movable.
classify-recurse_example :
    (should_recurse (classify_drive_child folder "source" "target") ≡ true)
    ↔ (IsMovable folder "source" "target" × (folder.mime_type ≡ folder_mime_type))
classify-recurse_example = classify-recurse folder "source" "target"
