-- ===== src/Transfer/Types.antt =====
-- src-tauri/src/application/transfer.rs: phases, errors and halts, and what a run is given. Drive,
-- the item store, the sleeper, the jitter, the clock, the stop flags and the event sink are
-- parameters over a world `W` that every call may change: item_store.rs and job_events.rs as the
-- transfer sees them.
use gdom.Base.{ℕ, String, List, Bool, Option}
use gdom.Base.State.{M}
use gdom.Job.Status.{JobError}
use gdom.Item.State.{ItemState, ItemErrorDetails, MigrationItem}
use gdom.Drive.Types.{DriveFileSnapshot, DrivePermission}
use gdom.Drive.Failure.{DriveTransferFailure}

pub data TransferPhase : Type 0 where
  reconcile pending_owner accept verify : TransferPhase

pub data TransferAccountRole : Type 0 where
  source target : TransferAccountRole

unfoldable pub account_role : TransferPhase → TransferAccountRole
account_role reconcile = source
account_role pending_owner = source
account_role accept = target
account_role verify = target

pub data ItemStoreError : Type 0 where
  batch_too_large : ℕ → ℕ → ItemStoreError
  invalid_state : ItemStoreError
  database : String → ItemStoreError

pub data TransferError : Type 0 where
  drive : DriveTransferFailure → TransferError
  store : ItemStoreError → TransferError
  job : JobError → TransferError
  invalid_item_state : TransferError

pub data TransferHalt : Type 0 where
  exhausted : ℕ → ℕ → TransferHalt
  sharing_rate_limited waiting_for_quota : String → TransferHalt
  auth_required : String → TransferAccountRole → TransferHalt
  paused cancelled : TransferHalt

pub data StepError : Type 0 where
  halt : TransferHalt → StepError
  failed : StepError
  fatal : TransferError → StepError

pub data StepOutcome : Type 0 where
  retryable permanent : ItemErrorDetails → StepOutcome
  halt : TransferHalt → ItemErrorDetails → StepOutcome
  store : ItemStoreError → StepOutcome
  invalid_state : StepOutcome

pub data PrepareAction : Type 0 where
  done : ItemState → PrepareAction
  verify_only : PrepareAction
  accept : String → PrepareAction

pub record ItemAggregates : Type 0 where
  pub total : ℕ
  pub completed : ℕ
  pub failed : ℕ
  pub skipped : ℕ
  pub eligible : ℕ
  pub eligible_files : ℕ
  pub eligible_folders : ℕ
  pub skipped_already_owned_by_target : ℕ
  pub skipped_not_owned_by_source : ℕ
  pub skipped_shared_drive : ℕ
  pub skipped_shortcuts : ℕ
  pub skipped_trashed : ℕ
  pub skipped_ineligible : ℕ
  pub estimated_quota_bytes : ℕ

-- The events that a scan and a transfer emit, of `JobRuntimeEvent`.
pub data JobRuntimeEvent : Type 0 where
  scan_progress : ℕ → ℕ → ℕ → ℕ → JobRuntimeEvent
  migration_progress : ℕ → ℕ → ℕ → Option String → JobRuntimeEvent
  item_state_changed : ℕ → String → String → JobRuntimeEvent

pub record DriveTransferPort (W : Type 0) : Type 0 where
  pub get_file : String → String → M W DriveTransferFailure DriveFileSnapshot
  pub create_pending_owner : String → String → String → M W DriveTransferFailure DrivePermission
  pub update_pending_owner : String → String → String → M W DriveTransferFailure DrivePermission
  pub accept_ownership : String → String → String → M W DriveTransferFailure DrivePermission

pub record ItemStorePort (W : Type 0) : Type 0 where
  pub item_aggregates : ℕ → M W ItemStoreError ItemAggregates
  pub list_items_for_transfer : ℕ → M W ItemStoreError (List MigrationItem)
  pub list_canary_cohort : ℕ → M W ItemStoreError (List MigrationItem)
  pub save_item : MigrationItem → M W ItemStoreError (Unit {0})

-- A token is the text that Drive is called with. The clock gives milliseconds since 1970.
pub record TransferRun (W : Type 0) : Type 0 where
  pub drive_port : DriveTransferPort W
  pub store_port : ItemStorePort W
  pub sleep : ℕ → W → W
  pub jitter_secs : W → ℕ × W
  pub clock : W → ℕ × W
  pub source_token : String
  pub target_token : String
  pub source_permission_id : String
  pub target_permission_id : String
  pub target_email : String
  pub pause : Option (W → Bool)
  pub cancel : Option (W → Bool)
  pub job_id : ℕ
  pub events : Option (JobRuntimeEvent → W → W)
