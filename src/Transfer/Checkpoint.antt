-- ===== src/Transfer/Checkpoint.antt =====
-- src-tauri/src/application/transfer.rs: what a start of the program does with the items that a stopped
-- run left between two steps.
use gdom.Base.{String, not, ◌&&◌, Option, none, some, List, [], ◌∷◌, if◌then◌else◌}
use gdom.Base.State.{M, return, throw, handle, map_err, held, on_world, change, ◌>>=◌, ◌>>◌}
use gdom.Item.State.{ItemState, MigrationItem, is_intermediate_checkpoint, same_state}
use gdom.Drive.Types.{DriveFileSnapshot, DrivePermission}
use gdom.Drive.Failure.{DriveTransferError, DriveTransferFailure, item_error_details, failure_text}
use gdom.Transfer.Types.{TransferAccountRole, TransferError, TransferHalt, TransferRun}
use gdom.Transfer.Steps.{Step, is_owner, find_target_permission, apply_state, persist}
use gdom.Transfer.Item.{record_error, touch}
use gdom.Transfer.Run.{into_transfer}

-- Through which account an item is looked at, and the token for it.
abbrev pub checkpoint_role : ItemState → TransferAccountRole
checkpoint_role ItemState.accepting = TransferAccountRole.target
checkpoint_role ItemState.transferred = TransferAccountRole.target
checkpoint_role ItemState.verifying = TransferAccountRole.target
checkpoint_role _ = TransferAccountRole.source

abbrev pub token_of : {W : Type 0} → TransferRun W → TransferAccountRole → String
token_of run TransferAccountRole.source = run.source_token
token_of run TransferAccountRole.target = run.target_token

-- The state of an item that the target has come to own.
abbrev pub state_when_owned : ItemState → ItemState
state_when_owned ItemState.pending_owner_created = ItemState.verifying
state_when_owned ItemState.accepting = ItemState.verifying
state_when_owned state = state

-- `if let Some(halt) = .. { return Ok(Some(halt)) }`.
unfoldable pub unless_halted :
    {W : Type 0}
    → M W TransferError (Option TransferHalt)
    → Option TransferHalt
    → M W TransferError (Option TransferHalt)
unless_halted go_on none = go_on
unless_halted go_on (some halt) = return (some halt)

module _ {W : Type 0} (run : TransferRun W) where
  -- `apply_state(..).map_err(into_transfer)?` and `persist(..).map_err(into_transfer)?`.
  unfoldable pub enter_state : ItemState → Step W TransferError (Unit {0})
  enter_state next = map_err into_transfer (apply_state run next)

  unfoldable pub store_and_go_on : Step W TransferError (Option TransferHalt)
  store_and_go_on = map_err into_transfer (persist run) >> return none

  -- The arms of the failed look.
  unfoldable pub look_failed :
      TransferAccountRole
      → DriveTransferFailure
      → DriveTransferError
      → Step W TransferError (Option TransferHalt)
  unfolding enter_state store_and_go_on
  look_failed role failure DriveTransferError.not_found = do
    change (record_error run (some (item_error_details failure)))
    enter_state ItemState.permanent_failed
    store_and_go_on
  look_failed role failure DriveTransferError.unauthorized = do
    change (record_error run (some (item_error_details failure)))
    map_err into_transfer (touch run)
    map_err into_transfer (persist run)
    return (some (TransferHalt.auth_required (failure_text failure) role))
  look_failed role failure _ = throw (TransferError.drive failure)

  -- `if let Some(existing) = find_target_permission(..)`.
  unfoldable pub note_permission :
      Option DrivePermission → Step W TransferError (Option TransferHalt)
  unfolding enter_state store_and_go_on
  note_permission none = store_and_go_on
  note_permission (some existing) = do
    change (λ item. record item { target_permission_id = some existing.id })
    item ← held
    if existing.pending_owner && same_state item.state ItemState.pending_owner_created
        then enter_state ItemState.accept_required
        else return tt
    store_and_go_on

  unfoldable pub looked : DriveFileSnapshot → Step W TransferError (Option TransferHalt)
  unfolding note_permission
  looked snapshot =
      if snapshot.trashed
      then (do enter_state ItemState.skipped_trashed; store_and_go_on)
      else if is_owner snapshot.owners run.target_permission_id
          && not (is_owner snapshot.owners run.source_permission_id)
      then (do
        item ← held
        if same_state (state_when_owned item.state) item.state
            then return tt
            else enter_state (state_when_owned item.state)
        store_and_go_on)
      else note_permission
          (find_target_permission snapshot.permissions run.target_email run.target_permission_id)

  unfoldable pub reconcile_intermediate_readonly : Step W TransferError (Option TransferHalt)
  unfolding looked look_failed
  reconcile_intermediate_readonly = do
    item ← held
    let role = checkpoint_role item.state
    handle (on_world (run.drive_port.get_file (token_of run role) item.file_id)) looked
        (λ failure. look_failed role failure failure.kind)

  -- One item, with the item itself dropped: the store has what became of it.
  unfoldable pub reconcile_item : MigrationItem → M W TransferError (Option TransferHalt)
  unfolding reconcile_intermediate_readonly
  reconcile_item item w = (
    (reconcile_intermediate_readonly (item, w)).0,
    (reconcile_intermediate_readonly (item, w)).1.1,
  )

  unfoldable pub reconcile_checkpoint : List MigrationItem → M W TransferError (Option TransferHalt)
  unfolding reconcile_item unless_halted
  reconcile_checkpoint [] = return none
  reconcile_checkpoint (item ∷ items) =
      let rest = reconcile_checkpoint items in
      if not (is_intermediate_checkpoint item.state)
      then rest
      else reconcile_item item >>= unless_halted rest
