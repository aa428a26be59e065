-- ===== src/Transfer/Tests.antt =====
-- Steps against the Drive of the tests.
use gdom.Base.{◌+◌, ◌≡◌, ◌≤◌, refl, String, true, [], ◌∷◌, ok, err, arith}
use gdom.Base.State.{return, throw, modify, settle, handle, ◌>>=◌, map_err, held, on_world, change}
use gdom.Transfer.Checkpoint.{reconcile_checkpoint}
use gdom.Transfer.ReadOnly.{with_calls, reconcile_checkpoint-with_calls}
use gdom.Transfer.Parents.{same_parents-Perm}
use mathlib.Core.List.{Perm}
use gdom.Item.State.{ItemState, transition_to, can_transition_to, is_skipped, is_terminal}
use gdom.Drive.Failure.{DriveTransferError, of_kind}
use gdom.Transfer.Types.{TransferPhase, StepError}
use gdom.Transfer.Steps.{
  classify, is_owner, find_target_permission, same_parents, enter_or, apply_state_or, apply_state,
  apply_state_outcome, persist, persist_outcome, retry, retry_loop, retry_after,
}
use gdom.Transfer.Item.{
  record_permission, advance, accept_path, advance_to_accept_required, accept_with, prepare_new,
  prepare_found, prepare, reconcile_and_prepare, accept_ownership, verify_once, verify_loop,
  verify_ownership, record_error, give_up, close, verify_and_close, act, transfer_held,
  transfer_one, finalize_step,
}
use gdom.Transfer.Guarantees.{transfer_one-verified, transfer_one-failed, transfer_one_sound}
use gdom.Transfer.Outcome.{IsGivenUp}
use gdom.Transfer.Table.{is_sound_stop}
use gdom.Transfer.Retries.{retry-calls}
use gdom.Transfer.Reached.{Reached}
use gdom.Transfer.Soundness.{IsConfirmed}
use gdom.Transfer.TestDrive.{new_item, run, failing}

transferred : (transfer_one run (new_item ItemState.eligible) 0).0 ≡ ok ItemState.verified
unfolding transfer_one transfer_held reconcile_and_prepare act finalize_step advance prepare
    prepare_new prepare_found accept_with advance_to_accept_required accept_path record_permission
    accept_ownership verify_ownership verify_loop verify_once verify_and_close close record_error
    persist_outcome persist apply_state_outcome apply_state apply_state_or enter_or retry retry_loop
    retry_after is_owner find_target_permission same_parents transition_to can_transition_to
    is_skipped is_terminal held on_world change return throw modify settle handle ◌>>=◌ map_err
transferred = refl

-- The item was confirmed.
transfer_one-verified_example : IsConfirmed run (Reached run 0) (new_item ItemState.eligible)
transfer_one-verified_example =
    transfer_one-verified run (new_item ItemState.eligible) 0 refl transferred

missing :
    (transfer_one (failing DriveTransferError.not_found) (new_item ItemState.eligible) 0).0
    ≡ err StepError.failed
unfolding transfer_one transfer_held reconcile_and_prepare act finalize_step give_up advance prepare
    prepare_new prepare_found accept_with advance_to_accept_required accept_path record_permission
    accept_ownership verify_ownership verify_loop verify_once verify_and_close close record_error
    persist_outcome persist apply_state_outcome apply_state apply_state_or enter_or retry retry_loop
    retry_after classify is_owner find_target_permission same_parents transition_to
    can_transition_to is_skipped is_terminal held on_world change return throw modify settle handle
    ◌>>=◌ map_err of_kind
missing = refl

-- A file that is not found is stored as failed.
transfer_one-failed_example :
    IsGivenUp
      (failing DriveTransferError.not_found)
      (Reached (failing DriveTransferError.not_found) 0)
      (new_item ItemState.eligible)
transfer_one-failed_example =
    transfer_one-failed (failing DriveTransferError.not_found) (new_item ItemState.eligible) 0 refl
      missing

-- It is an error that a step may end in.
transfer_one_sound_example : is_sound_stop StepError.failed ≡ true
transfer_one_sound_example =
    transfer_one_sound (failing DriveTransferError.not_found) (new_item ItemState.eligible) 0 refl
      StepError.failed missing

-- A Drive that is never available is asked seven times.
retry-calls_example :
    (retry
      (failing DriveTransferError.server_unavailable)
      TransferPhase.reconcile
      ((failing DriveTransferError.server_unavailable).drive_port.get_file "t" "file")
      (new_item ItemState.eligible, 0)).1.1
    ≤ 0 + 7
retry-calls_example =
    retry-calls (failing DriveTransferError.server_unavailable) TransferPhase.reconcile
      ((failing DriveTransferError.server_unavailable).drive_port.get_file "t" "file") (λ w. w)
      (λ w. omega arith) (λ secs w. refl) (λ w. refl) (new_item ItemState.eligible) 0

same_folders : same_parents ("b" ∷ ("a" ∷ [])) ("a" ∷ ("b" ∷ [])) ≡ true
unfolding same_parents
same_folders = refl

-- Two parents in another order are the same parents.
same_parents-Perm_example : Perm {A = String} ("b" ∷ ("a" ∷ [])) ("a" ∷ ("b" ∷ []))
same_parents-Perm_example = same_parents-Perm ("b" ∷ ("a" ∷ [])) ("a" ∷ ("b" ∷ [])) same_folders

-- An item left in `accepting` is looked at in the same way by a Drive whose changing calls all fail.
reconcile_checkpoint-with_calls_example :
    reconcile_checkpoint run (new_item ItemState.accepting ∷ [])
    ≡ reconcile_checkpoint
        (with_calls run
          (λ t f e w. (err (of_kind DriveTransferError.forbidden), w))
          (λ t f e w. (err (of_kind DriveTransferError.forbidden), w))
          (λ t f e w. (err (of_kind DriveTransferError.forbidden), w)))
        (new_item ItemState.accepting ∷ [])
reconcile_checkpoint-with_calls_example =
    reconcile_checkpoint-with_calls run (λ t f e w. (err (of_kind DriveTransferError.forbidden), w))
      (λ t f e w. (err (of_kind DriveTransferError.forbidden), w))
      (λ t f e w. (err (of_kind DriveTransferError.forbidden), w))
      (new_item ItemState.accepting ∷ [])
