-- ===== src/Transfer/Item.antt =====
-- src-tauri/src/application/transfer.rs: the transfer of one item, from its stored state to the
-- state that the step ends in.
use gdom.Base.{
  ℕ, zero, suc, ◌-◌, String, Bool, true, false, not, ◌&&◌, ◌||◌, Option, none, some, ok,
  if◌then◌else◌, is_some, eq_ignore_ascii_case,
}
use gdom.Base.State.{M, return, throw, modify, handle, ◌>>=◌, ◌>>◌, held, on_world, change}
use gdom.Time.{iso_text}
use gdom.Item.State.{ItemState, ItemErrorDetails, MigrationItem, is_terminal}
use gdom.Drive.Types.{DriveFileSnapshot, DrivePermission}
use gdom.Backoff.{max_retry_attempts}
use gdom.Transfer.Types.{
  TransferPhase, TransferError, StepError, StepOutcome, PrepareAction, TransferRun,
}
use gdom.Transfer.Steps.{
  Step, own_error_details, is_owner, find_target_permission, same_parents, apply_state_outcome,
  apply_state, persist_outcome, persist, back_off, retry,
}

abbrev pub missing_permission : ItemErrorDetails
missing_permission =
    own_error_details "missing_target_permission"
      "The target permission needed to accept ownership was not recorded."

abbrev pub source_not_owner : ItemErrorDetails
source_not_owner =
    own_error_details "source_not_owner" "The source account no longer owns this item."

abbrev pub not_transferred : ItemErrorDetails
not_transferred =
    own_error_details "ownership_not_transferred"
      "Neither account is recorded as owner after the ownership transfer."

abbrev pub not_verified : ItemErrorDetails
not_verified =
    own_error_details "ownership_not_verified"
      "Google Drive did not confirm target ownership before the verification limit."

-- `matches!(item.state, Transferred | Verifying)`, and `AcceptRequired | Accepting`.
abbrev pub awaits_verification : ItemState → Bool
awaits_verification ItemState.transferred = true
awaits_verification ItemState.verifying = true
awaits_verification _ = false

abbrev pub awaits_accept : ItemState → Bool
awaits_accept ItemState.accept_required = true
awaits_accept ItemState.accepting = true
awaits_accept _ = false

module _ {W : Type 0} (run : TransferRun W) where
  unfoldable pub record_permission : String → Step W StepOutcome (Unit {0})
  record_permission id = change (λ item. record item { target_permission_id = some id })

  -- Enter a state and store the item.
  unfoldable pub advance : ItemState → Step W StepOutcome (Unit {0})
  advance next = do apply_state_outcome run next; persist_outcome run

  unfoldable pub accept_from_required : Step W StepOutcome (Unit {0})
  accept_from_required = do
    apply_state_outcome run ItemState.pending_owner_created
    apply_state_outcome run ItemState.accept_required

  unfoldable pub accept_from_start : Step W StepOutcome (Unit {0})
  accept_from_start = do
    apply_state_outcome run ItemState.pending_owner_required
    accept_from_required

  -- The arms of `advance_to_accept_required`.
  unfoldable pub accept_path : ItemState → Step W StepOutcome (Unit {0})
  unfolding accept_from_required accept_from_start
  accept_path ItemState.eligible = accept_from_start
  accept_path ItemState.retryable_failed = accept_from_start
  accept_path ItemState.pending_owner_required = accept_from_required
  accept_path ItemState.pending_owner_created = apply_state_outcome run ItemState.accept_required
  accept_path ItemState.accept_required = return tt
  accept_path ItemState.accepting = return tt
  accept_path _ = throw StepOutcome.invalid_state

  unfoldable pub advance_to_accept_required : Step W StepOutcome (Unit {0})
  unfolding accept_path
  advance_to_accept_required = do item ← held; accept_path item.state

  -- The tail of every way to a pending ownership.
  unfoldable pub accept_with : String → Step W StepOutcome PrepareAction
  unfolding record_permission
  accept_with id = do
    record_permission id
    advance_to_accept_required
    persist_outcome run
    return (PrepareAction.accept id)

  unfoldable pub raise_existing : DrivePermission → Step W StepOutcome PrepareAction
  unfolding record_permission accept_with
  raise_existing existing = do
    advance ItemState.pending_owner_required
    item ← held
    updated ←
        retry run TransferPhase.pending_owner
          (run.drive_port.update_pending_owner run.source_token item.file_id existing.id)
    accept_with updated.id

  unfoldable pub accept_existing : DrivePermission → Step W StepOutcome PrepareAction
  accept_existing existing = do
    advance_to_accept_required
    persist_outcome run
    return (PrepareAction.accept existing.id)

  -- A permission that the target has already.
  unfoldable pub prepare_existing : DrivePermission → Step W StepOutcome PrepareAction
  unfolding record_permission raise_existing accept_existing
  prepare_existing existing = do
    record_permission existing.id
    if existing.pending_owner || eq_ignore_ascii_case existing.role "owner"
        then accept_existing existing
        else raise_existing existing

  unfoldable pub prepare_new : Step W StepOutcome PrepareAction
  unfolding accept_with
  prepare_new = do
    advance ItemState.pending_owner_required
    item ← held
    created ←
        retry run TransferPhase.pending_owner
          (run.drive_port.create_pending_owner run.source_token item.file_id run.target_email)
    accept_with created.id

  -- `if let Some(existing) = find_target_permission(..)`.
  unfoldable pub prepare_found : Option DrivePermission → Step W StepOutcome PrepareAction
  unfolding prepare_existing prepare_new
  prepare_found (some existing) = prepare_existing existing
  prepare_found none = prepare_new

  -- What follows the snapshot in `reconcile_and_prepare`.
  unfoldable pub prepare : DriveFileSnapshot → Step W StepOutcome PrepareAction
  prepare snapshot =
      let target_owns = is_owner snapshot.owners run.target_permission_id in
      let source_owns = is_owner snapshot.owners run.source_permission_id in
      if snapshot.trashed
      then (do
        advance ItemState.skipped_trashed
        return (PrepareAction.done ItemState.skipped_trashed))
      else if is_some snapshot.drive_id
      then (do
        advance ItemState.skipped_shared_drive
        return (PrepareAction.done ItemState.skipped_shared_drive))
      else if target_owns && not source_owns
      then (do advance ItemState.verifying; return PrepareAction.verify_only)
      else if not source_owns
      then throw (StepOutcome.permanent source_not_owner)
      else prepare_found
          (find_target_permission snapshot.permissions run.target_email run.target_permission_id)

  -- `target_permission_id.ok_or_else(..)`.
  unfoldable pub accept_recorded : Option String → Step W StepOutcome PrepareAction
  accept_recorded none = throw (StepOutcome.permanent missing_permission)
  accept_recorded (some permission_id) = return (PrepareAction.accept permission_id)

  unfoldable pub reconcile_and_prepare : Step W StepOutcome PrepareAction
  unfolding prepare accept_recorded
  reconcile_and_prepare = do
    item ← held
    if awaits_verification item.state
        then (do advance ItemState.verifying; return PrepareAction.verify_only)
        else if awaits_accept item.state
        then accept_recorded item.target_permission_id
        else (do
          snapshot ←
              retry run TransferPhase.reconcile
                (run.drive_port.get_file run.source_token item.file_id)
          prepare snapshot)

  unfoldable pub accept_ownership : String → Step W StepOutcome (Unit {0})
  accept_ownership permission_id = do
    advance ItemState.accepting
    item ← held
    _ ←
        retry run TransferPhase.accept
          (run.drive_port.accept_ownership run.target_token item.file_id permission_id)
    advance ItemState.transferred

  -- One round of the loop of `verify_ownership`; `again` is what an unconfirmed answer leads to.
  unfoldable pub verify_once : Step W StepOutcome (Unit {0}) → Step W StepOutcome (Unit {0})
  verify_once again = do
    item ← held
    snapshot ←
        retry run TransferPhase.verify (run.drive_port.get_file run.target_token item.file_id)
    let target_owns = is_owner snapshot.owners run.target_permission_id
    let source_owns = is_owner snapshot.owners run.source_permission_id
    let parents_ok = same_parents item.original_parent_ids snapshot.parents
    if snapshot.trashed
        then advance ItemState.skipped_trashed
        else if target_owns && not source_owns && parents_ok
        then return tt
        else if not target_owns && not source_owns
        then throw (StepOutcome.permanent not_transferred)
        else again

  -- The loop, over the attempts that are left: `attempt` is 6 less those.
  unfoldable pub verify_loop : ℕ → Step W StepOutcome (Unit {0})
  unfolding verify_once
  verify_loop zero = verify_once (throw (StepOutcome.retryable not_verified))
  verify_loop (suc left) =
      verify_once
        (on_world (modify (back_off run (max_retry_attempts - suc left))) >> verify_loop left)

  unfoldable pub verify_ownership : Step W StepOutcome (Unit {0})
  unfolding verify_loop
  verify_ownership = do advance ItemState.verifying; verify_loop max_retry_attempts

  unfoldable pub record_error : Option ItemErrorDetails → MigrationItem → MigrationItem
  record_error details item = record item { last_error = details }

  -- `if !item.state.is_terminal() { apply_state(item, next)? }`.
  unfoldable pub give_up : ItemErrorDetails → ItemState → Step W StepError ItemState
  unfolding record_error
  give_up details next = do
    change (record_error (some details))
    item ← held
    if is_terminal item.state then return tt else apply_state run next
    persist run
    throw StepError.failed

  unfoldable pub touch : Step W StepError (Unit {0})
  touch (item, w) =
      let (now, w') = run.clock w in (ok tt, (record item { updated_at = iso_text now }, w'))

  unfoldable pub finalize_step : StepOutcome → Step W StepError ItemState
  unfolding record_error touch
  finalize_step (StepOutcome.halt halt details) = do
    change (record_error (some details))
    touch
    persist run
    throw (StepError.halt halt)
  finalize_step (StepOutcome.store e) = throw (StepError.fatal (TransferError.store e))
  finalize_step StepOutcome.invalid_state = throw (StepError.fatal TransferError.invalid_item_state)
  finalize_step (StepOutcome.permanent details) = give_up details ItemState.permanent_failed
  finalize_step (StepOutcome.retryable details) = give_up details ItemState.retryable_failed

  -- The end of a verification that found the item transferred.
  unfoldable pub close : Step W StepError ItemState
  unfolding record_error
  close = do
    item ← held
    if is_terminal item.state then return item.state else (do
      change (record_error none)
      apply_state run ItemState.verified
      persist run
      return ItemState.verified)

  unfoldable pub verify_and_close : Step W StepError ItemState
  unfolding close finalize_step
  verify_and_close = handle verify_ownership (λ _. close) finalize_step

  unfoldable pub act : PrepareAction → Step W StepError ItemState
  unfolding verify_and_close
  act (PrepareAction.done state) = return state
  act PrepareAction.verify_only = verify_and_close
  act (PrepareAction.accept permission_id) =
      handle (accept_ownership permission_id) (λ _. verify_and_close) finalize_step

  -- The body of `transfer_one`, with the item that it owns in hand.
  unfoldable pub transfer_held : Step W StepError ItemState
  unfolding act
  transfer_held = do
    item ← held
    if is_terminal item.state
        then return item.state
        else handle reconcile_and_prepare act finalize_step

  -- The item is taken by value and dropped at the end: only the answer and the world remain.
  unfoldable pub transfer_one : MigrationItem → M W StepError ItemState
  unfolding transfer_held
  transfer_one item w = let (answer, (dropped, after)) = transfer_held (item, w) in (answer, after)
