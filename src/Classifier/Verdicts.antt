-- ===== src/Classifier/Verdicts.antt =====
-- When the scan takes an item up, and when it goes down into a folder.
use gdom.Base.{is_some, ◌≡◌, ◌↔◌, ◌||◌, String, true, false, str_eq, eq_iff, arith}
use gdom.Item.State.{is_transfer_active, is_skipped}
use gdom.Drive.Types.{DriveChild, folder_mime_type, shortcut_mime_type}
use gdom.Classifier.{item_state, should_recurse, in_shared_drive, is_owned_by, classify_drive_child}

-- The one description of what a transfer may touch.
pub record IsMovable (child : DriveChild) (source target : String) : Type 0 where
  pub kept : child.trashed ≡ false
  pub personal : in_shared_drive child.drive_id ≡ false
  pub not_yet_owned : is_owned_by target child.owners ≡ false
  pub owned : is_owned_by source child.owners ≡ true
  pub no_shortcut :
      (str_eq child.mime_type shortcut_mime_type || is_some child.shortcut_target_id) ≡ false

-- A found item enters the transfer exactly when it is movable: not trashed, in no shared drive, owned
-- by the source and not by the target, and no shortcut. Every other item is skipped.
pub classify-IsMovable :
    (child : DriveChild) (source target : String)
    → let state = item_state (classify_drive_child child source target) in
      ((is_transfer_active state ≡ true) ↔ IsMovable child source target)
      × ((is_transfer_active state ≡ false) ↔ (is_skipped state ≡ true))
unfolding classify_drive_child item_state is_transfer_active is_skipped
classify-IsMovable child source target =
    ((λ h. ground arith, λ h. ground arith), (λ h. ground arith, λ h. ground arith))

-- The scan goes down into a found item exactly when it is movable and a folder, so never through a
-- shortcut, into a shared drive or into a folder of somebody else.
pub classify-recurse :
    (child : DriveChild) (source target : String)
    → (should_recurse (classify_drive_child child source target) ≡ true)
      ↔ (IsMovable child source target × (child.mime_type ≡ folder_mime_type))
unfolding classify_drive_child should_recurse
classify-recurse child source target = (
  λ h. ground (arith, eq_iff child.mime_type folder_mime_type),
  λ h.
      ground
        (arith, eq_iff child.mime_type folder_mime_type, eq_iff child.mime_type shortcut_mime_type),
)
