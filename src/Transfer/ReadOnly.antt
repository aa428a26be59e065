-- ===== src/Transfer/ReadOnly.antt =====
-- What the look at the stopped items of a run may do to Drive.
use gdom.Base.{◌≡◌, refl, String, List, [], ◌∷◌}
use gdom.Base.State.{M}
use gdom.Item.State.{MigrationItem}
use gdom.Drive.Types.{DrivePermission}
use gdom.Drive.Failure.{DriveTransferFailure}
use gdom.Transfer.Types.{TransferRun}
use gdom.Transfer.Steps.{apply_state, apply_state_or, enter_or, persist, emit_item_state}
use gdom.Transfer.Item.{touch, record_error}
use gdom.Transfer.Checkpoint.{
  enter_state, store_and_go_on, look_failed, note_permission, looked,
  reconcile_intermediate_readonly, reconcile_item, reconcile_checkpoint,
}

-- The same run, with other calls in place of those that change a file on Drive.
abbrev pub with_calls :
    {W : Type 0}
    → TransferRun W
    → (String → String → String → M W DriveTransferFailure DrivePermission)
    → (String → String → String → M W DriveTransferFailure DrivePermission)
    → (String → String → String → M W DriveTransferFailure DrivePermission)
    → TransferRun W
with_calls run create update accept = record run {
  drive_port = record run.drive_port {
    create_pending_owner = create;
    update_pending_owner = update;
    accept_ownership = accept;
  };
}

module _ {W : Type 0} (run : TransferRun W)
    (create update accept : String
      → String
      → String
      → M W DriveTransferFailure DrivePermission) where
  reconcile_item-with_calls :
      (item : MigrationItem)
      → reconcile_item run item ≡ reconcile_item (with_calls run create update accept) item
  unfolding reconcile_item reconcile_intermediate_readonly looked look_failed note_permission
      enter_state store_and_go_on apply_state apply_state_or enter_or persist emit_item_state touch
      record_error
  reconcile_item-with_calls item = refl

  -- The look at the items of a stopped run only reads from Drive: whatever the calls that create, raise
  -- or accept an ownership would do, it answers the same and leaves the world the same.
  pub reconcile_checkpoint-with_calls :
      (items : List MigrationItem)
      → reconcile_checkpoint run items
        ≡ reconcile_checkpoint (with_calls run create update accept) items
  unfolding reconcile_checkpoint
  reconcile_checkpoint-with_calls [] = refl
  reconcile_checkpoint-with_calls (item ∷ items) =
      rw (reconcile_item-with_calls item, reconcile_checkpoint-with_calls items) refl
