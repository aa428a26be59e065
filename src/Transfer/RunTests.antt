-- ===== src/Transfer/RunTests.antt =====
-- Runs of a job against the Drive of the tests.
use gdom.Base.{true, all, ℕ, ◌≡◌, ◌⊎◌, refl, [], ◌∷◌, ok, err}
use gdom.Base.State.{return, throw, modify, settle, handle, ◌>>=◌, map_err, held, on_world, change}
use gdom.Job.Status.{JobStatus, illegal_transition}
use gdom.Job.Transfer
use gdom.Item.State.{
  ItemState, transition_to, can_transition_to, is_skipped, is_terminal, is_eligible,
}
use gdom.Drive.Failure.{of_kind}
use gdom.Transfer.Types.{TransferRun, TransferHalt, TransferError, ItemStoreError}
use gdom.Transfer.Steps.{
  classify, is_owner, find_target_permission, same_parents, enter_or, apply_state_or, apply_state,
  apply_state_outcome, persist, persist_outcome, retry, retry_loop, retry_after,
}
use gdom.Transfer.Item.{
  record_permission, advance, accept_path, advance_to_accept_required, accept_with, prepare_new,
  prepare_found, prepare, reconcile_and_prepare, accept_ownership, verify_once, verify_loop,
  verify_ownership, record_error, give_up, close, verify_and_close, act, transfer_held,
  transfer_one, finalize_step,
}
use gdom.Transfer.Counts.{
  count, says_verified, says_failed, goes_on, answers_of, transfer_items-counts,
}
use gdom.Transfer.Run.{
  on_job, settle_job, now, transfer_items, transfer_loop, after_attempt, unless_stopped,
  stop_requested, emit_transfer_progress, select_canary_batch, enrol, apply_halt, execute_canary,
  execute_bulk, end_bulk,
}
use gdom.Transfer.Runs.{
  BulkEnd, execute_canary-status, execute_bulk-status, execute_canary-interrupted,
  execute_bulk-interrupted,
}
use gdom.Transfer.TestDrive.{new_item, store, run, job}

exhausted :
    (transfer_items run (new_item ItemState.eligible ∷ []) 0).0 ≡ ok (TransferHalt.exhausted 1 0)
unfolding transfer_one transfer_held reconcile_and_prepare act finalize_step give_up advance prepare
    prepare_new prepare_found accept_with advance_to_accept_required accept_path record_permission
    accept_ownership verify_ownership verify_loop verify_once verify_and_close close record_error
    persist_outcome persist apply_state_outcome apply_state apply_state_or enter_or retry retry_loop
    retry_after classify is_owner find_target_permission same_parents transition_to
    can_transition_to is_skipped is_terminal held on_world change return throw modify settle handle
    ◌>>=◌ map_err of_kind transfer_items transfer_loop after_attempt unless_stopped stop_requested
    emit_transfer_progress
exhausted = refl

-- One item, counted once.
transfer_items-counts_example :
    (1 ≡ count says_verified (answers_of run (new_item ItemState.eligible ∷ []) 0))
    × ((0 ≡ count says_failed (answers_of run (new_item ItemState.eligible ∷ []) 0))
        × (all goes_on (answers_of run (new_item ItemState.eligible ∷ []) 0) ≡ true))
transfer_items-counts_example =
    transfer_items-counts run (new_item ItemState.eligible ∷ []) 0 1 0 (refl, tt) exhausted

canary :
    (execute_canary run (job JobStatus.ready_for_review, 0)).0 ≡ ok (TransferHalt.exhausted 1 0)
unfolding transfer_one transfer_held reconcile_and_prepare act finalize_step give_up advance prepare
    prepare_new prepare_found accept_with advance_to_accept_required accept_path record_permission
    accept_ownership verify_ownership verify_loop verify_once verify_and_close close record_error
    persist_outcome persist apply_state_outcome apply_state apply_state_or enter_or retry retry_loop
    retry_after classify is_owner find_target_permission same_parents transition_to
    can_transition_to is_skipped is_terminal held on_world change return throw modify settle handle
    ◌>>=◌ map_err of_kind transfer_items transfer_loop after_attempt unless_stopped stop_requested
    emit_transfer_progress execute_canary on_job settle_job select_canary_batch enrol apply_halt now
    Transfer.start_canary Transfer.complete_canary is_eligible
canary = refl

-- A canary of one item that succeeds is to be reviewed.
execute_canary-status_example :
    (execute_canary run (job JobStatus.ready_for_review, 0)).1.0.status ≡ JobStatus.canary_review
execute_canary-status_example =
    execute_canary-status run (job JobStatus.ready_for_review) 0 (TransferHalt.exhausted 1 0) canary

bulk : (execute_bulk run (job JobStatus.canary_review, 0)).0 ≡ ok (TransferHalt.exhausted 1 0)
unfolding transfer_one transfer_held reconcile_and_prepare act finalize_step give_up advance prepare
    prepare_new prepare_found accept_with advance_to_accept_required accept_path record_permission
    accept_ownership verify_ownership verify_loop verify_once verify_and_close close record_error
    persist_outcome persist apply_state_outcome apply_state apply_state_or enter_or retry retry_loop
    retry_after classify is_owner find_target_permission same_parents transition_to
    can_transition_to is_skipped is_terminal held on_world change return throw modify settle handle
    ◌>>=◌ map_err of_kind transfer_items transfer_loop after_attempt unless_stopped stop_requested
    emit_transfer_progress execute_bulk end_bulk on_job settle_job apply_halt now
    Transfer.start_bulk Transfer.complete_transfer
bulk = refl

-- A bulk run that succeeds completes the job.
execute_bulk-status_example :
    BulkEnd
      (TransferHalt.exhausted 1 0)
      (execute_bulk run (job JobStatus.canary_review, 0)).1.0.status
execute_bulk-status_example =
    execute_bulk-status run (job JobStatus.canary_review) 0 (TransferHalt.exhausted 1 0) bulk

no_canary : (Transfer.start_canary (job JobStatus.completed)).1 ≡ err illegal_transition
unfolding Transfer.start_canary
no_canary = refl

no_bulk : (Transfer.start_bulk (job JobStatus.ready_for_review)).1 ≡ err illegal_transition
unfolding Transfer.start_bulk
no_bulk = refl

-- The store that cannot list the items.
abbrev broken : TransferRun ℕ
broken = record run {
  store_port = record store {
    list_canary_cohort = λ job w. (err ItemStoreError.invalid_state, w);
    list_items_for_transfer = λ job w. (err ItemStoreError.invalid_state, w);
  };
}

stopped :
    (execute_canary broken (job JobStatus.ready_for_review, 0)).0
    ≡ err (TransferError.store ItemStoreError.invalid_state)
unfolding execute_canary on_job settle_job select_canary_batch Transfer.start_canary held on_world
    return throw settle handle ◌>>=◌ map_err
stopped = refl

-- The job is left in `running_canary`.
execute_canary-interrupted_example :
    ((execute_canary broken (job JobStatus.ready_for_review, 0)).1.0
      ≡ job JobStatus.ready_for_review)
    ⊎ ((execute_canary broken (job JobStatus.ready_for_review, 0)).1.0.status
        ≡ JobStatus.running_canary)
execute_canary-interrupted_example =
    execute_canary-interrupted broken (job JobStatus.ready_for_review) 0
      (TransferError.store ItemStoreError.invalid_state) stopped

stopped_bulk :
    (execute_bulk broken (job JobStatus.canary_review, 0)).0
    ≡ err (TransferError.store ItemStoreError.invalid_state)
unfolding execute_bulk on_job settle_job Transfer.start_bulk held on_world return throw settle
    handle ◌>>=◌ map_err
stopped_bulk = refl

-- The job is left in `running`.
execute_bulk-interrupted_example :
    ((execute_bulk broken (job JobStatus.canary_review, 0)).1.0 ≡ job JobStatus.canary_review)
    ⊎ ((execute_bulk broken (job JobStatus.canary_review, 0)).1.0.status ≡ JobStatus.running)
execute_bulk-interrupted_example =
    execute_bulk-interrupted broken (job JobStatus.canary_review) 0
      (TransferError.store ItemStoreError.invalid_state) stopped_bulk
