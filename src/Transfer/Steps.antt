-- ===== src/Transfer/Steps.antt =====
-- src-tauri/src/application/transfer.rs: the parts of a step. The state is the item in hand and the
-- world.
use gdom.Base.{
  ℕ, zero, suc, ◌-◌, String, List, [], ◌∷◌, Bool, true, false, ◌&&◌, ◌||◌, Option, none, some,
  Result, ok, err, if◌then◌else◌, any, find?, str_eq, eq_ignore_ascii_case,
}
use Prim.Native.Nat.{Ordering}
use Prim.Native.String.{compare}
use gdom.Base.State.{M, return, throw, modify, handle, ◌>>=◌, ◌>>◌, map_err, held, on_world}
use gdom.Time.{iso_text}
use gdom.Item.State.{
  ItemState, ItemError, ItemErrorDetails, MigrationItem, transition_to, is_skipped, as_str,
}
use gdom.Drive.Types.{DriveFolderOwner, DrivePermission}
use gdom.Drive.Failure.{DriveTransferFailure, DriveTransferError, item_error_details, failure_text}
use gdom.Backoff.{backoff_delay, max_retry_attempts}
use gdom.Transfer.Types.{
  TransferPhase, reconcile, pending_owner, accept, verify, account_role, TransferError,
  TransferHalt, StepError, StepOutcome, retryable, permanent, TransferRun, JobRuntimeEvent,
  item_state_changed,
}

-- `item_error_details` of transfer.rs.
abbrev pub own_error_details : String → String → ItemErrorDetails
own_error_details reason message = record {
  code = none;
  reason = some reason;
  message = some message;
}

unfoldable pub classify : DriveTransferFailure → TransferPhase → StepOutcome
classify failure phase =
    let details = item_error_details failure in
    elim failure.kind [
      | DriveTransferError.sharing_rate_limit_exceeded ↦
          StepOutcome.halt (TransferHalt.sharing_rate_limited (failure_text failure)) details
      | DriveTransferError.storage_quota_exceeded ↦
          StepOutcome.halt (TransferHalt.waiting_for_quota (failure_text failure)) details
      | DriveTransferError.unauthorized ↦
          StepOutcome.halt (TransferHalt.auth_required (failure_text failure) (account_role phase))
            details
      | DriveTransferError.not_found ↦ elim phase [
        | verify ↦ retryable details
        | accept ↦ retryable details
        | reconcile ↦ permanent details
        | pending_owner ↦ permanent details
      ]
      | DriveTransferError.rate_limited ↦ retryable details
      | DriveTransferError.server_unavailable ↦ retryable details
      | DriveTransferError.transport ↦ retryable details
      | DriveTransferError.forbidden ↦ permanent details
      | DriveTransferError.invalid_response ↦ permanent details
      | DriveTransferError.unexpected_status _ ↦ permanent details
    ]

unfoldable pub is_owner : List DriveFolderOwner → String → Bool
is_owner owners permission_id = any (λ owner. str_eq owner.permission_id permission_id) owners

-- `email.eq_ignore_ascii_case(target_email)` where there is an email.
abbrev has_email : String → Option String → Bool
has_email target_email none = false
has_email target_email (some email) = eq_ignore_ascii_case email target_email

unfoldable pub find_target_permission :
    List DrivePermission → String → String → Option DrivePermission
find_target_permission permissions target_email target_permission_id =
    find?
      (λ permission.
        str_eq permission.id target_permission_id
        || has_email target_email permission.email_address)
      permissions

-- `Vec<String>::sort` (by bytes, which is the order of code points) and `==`.
abbrev pub text_le : String → String → Bool
text_le s t = elim (compare s t) [ Ordering.gt ↦ false | _ ↦ true ]

unfoldable pub insert_text : String → List String → List String
insert_text s [] = s ∷ []
insert_text s (t ∷ ts) = if text_le s t then s ∷ t ∷ ts else t ∷ insert_text s ts

unfoldable pub sort_texts : List String → List String
unfolding insert_text
sort_texts [] = []
sort_texts (s ∷ ss) = insert_text s (sort_texts ss)

unfoldable pub texts_eq : List String → List String → Bool
texts_eq [] [] = true
texts_eq [] (t ∷ ts) = false
texts_eq (s ∷ ss) [] = false
texts_eq (s ∷ ss) (t ∷ ts) = str_eq s t && texts_eq ss ts

unfoldable pub same_parents : List String → List String → Bool
unfolding sort_texts texts_eq
same_parents original remote = texts_eq (sort_texts original) (sort_texts remote)

abbrev pub Step : Type 0 → Type 0 → Type 0 → Type 0
Step W E A = M (MigrationItem × W) E A

module _ {W : Type 0} (run : TransferRun W) where
  -- `apply_state_outcome` and `apply_state`, which differ in the error of a refused transition.
  enter : ItemState → ItemState → MigrationItem × W → MigrationItem × W
  enter next state (item, w) =
      let (now, w') = run.clock w in
      (
        record item {
          state = state;
          last_error = if is_skipped next then none else item.last_error;
          updated_at = iso_text now;
        },
        w',
      )

  unfoldable pub enter_or :
      {E : Type 0}
      → E
      → ItemState
      → MigrationItem × W
      → Result ItemError ItemState
      → Result E (Unit {0}) × (MigrationItem × W)
  unfolding enter
  enter_or refused next s (ok state) = (ok tt, enter next state s)
  enter_or refused next s (err _) = (err refused, s)

  unfoldable pub apply_state_or : {E : Type 0} → E → ItemState → Step W E (Unit {0})
  unfolding enter_or
  apply_state_or refused next s = enter_or refused next s (transition_to s.0.state next)

  unfoldable pub apply_state_outcome : ItemState → Step W StepOutcome (Unit {0})
  unfolding apply_state_or
  apply_state_outcome = apply_state_or StepOutcome.invalid_state

  unfoldable pub apply_state : ItemState → Step W StepError (Unit {0})
  unfolding apply_state_or
  apply_state = apply_state_or (StepError.fatal TransferError.invalid_item_state)

  unfoldable pub emit : Option (JobRuntimeEvent → W → W) → JobRuntimeEvent → W → W
  emit none event w = w
  emit (some sink) event w = sink event w

  unfoldable pub emit_item_state : MigrationItem → W → W
  unfolding emit
  emit_item_state item =
      emit run.events (item_state_changed run.job_id item.file_id (as_str item.state))

  -- `persist_outcome`, and `persist` with the store's error made fatal.
  unfoldable pub persist_outcome : Step W StepOutcome (Unit {0})
  unfolding emit_item_state
  persist_outcome = do
    item ← held
    map_err StepOutcome.store (on_world (run.store_port.save_item item))
    on_world (modify (emit_item_state item))

  unfoldable pub persist : Step W StepError (Unit {0})
  unfolding emit_item_state
  persist = do
    item ← held
    map_err (λ e. StepError.fatal (TransferError.store e))
        (on_world (run.store_port.save_item item))
    on_world (modify (emit_item_state item))

  -- `sleeper.sleep(backoff_delay(attempt, jitter.jitter_secs()))`.
  unfoldable pub back_off : ℕ → W → W
  back_off attempt w =
      let (jitter, w') = run.jitter_secs w in run.sleep (backoff_delay attempt jitter) w'

  -- What `retry` does with a failed call while attempts are left; `again` is the rest of the loop.
  unfoldable pub retry_after :
      {A : Type 0} → (W → Result StepOutcome A × W) → ℕ → StepOutcome → W → Result StepOutcome A × W
  retry_after again attempt (retryable _) w = again (back_off attempt w)
  retry_after again attempt outcome w = (err outcome, w)

  -- The loop of `retry`, over the attempts that are left: `attempt` is 6 less those.
  unfoldable pub retry_loop :
      {A : Type 0} → TransferPhase → M W DriveTransferFailure A → ℕ → M W StepOutcome A
  unfolding retry_after
  retry_loop phase op zero w = handle op return (λ failure. throw (classify failure phase)) w
  retry_loop phase op (suc left) w =
      handle op return
        (λ failure.
          retry_after (retry_loop phase op left) (max_retry_attempts - suc left)
            (classify failure phase))
        w

  unfoldable pub retry :
      {A : Type 0} → TransferPhase → M W DriveTransferFailure A → Step W StepOutcome A
  unfolding retry_loop back_off
  retry phase op = on_world (retry_loop phase op max_retry_attempts)
