-- ===== src/Scan/Types.antt =====
-- src-tauri/src/application/scanner.rs and the ports that it calls (drive_tree.rs, item_store.rs).
-- Drive, the item store, the clock, the source of ids, the pause flag, the event sink and the tasks
-- of tokio are parameters over a world `W` that every call may change.
use gdom.Base.{ℕ, ℤ, String, List, Bool, true, false, Option}
use gdom.Base.State.{M}
use gdom.Job.Types.{MigrationRoot}
use gdom.Item.State.{ScanCheckpoint}
use gdom.Drive.Types.{DriveFileSnapshot, DriveChild}
use gdom.Drive.Failure.{DriveTransferFailure, DriveTransferError}
use gdom.Transfer.Types.{ItemStoreError, ItemAggregates, JobRuntimeEvent}
use gdom.Store.Rows.{ItemBatchCommit}

-- `DriveFolderLookupError` by its other name.
pub data DriveTreeError : Type 0 where
  not_found unauthorized forbidden rate_limited unavailable transport : DriveTreeError
  invalid_response : DriveTreeError
  unexpected_status : ℕ → DriveTreeError

pub record DriveChildPage : Type 0 where
  pub files : List DriveChild
  pub next_page_token : Option String

pub data ScanOutcome : Type 0 where
  completed paused : ScanOutcome

pub data ScanError : Type 0 where
  rate_limited : ScanError
  drive : DriveTreeError → ScanError
  store : ItemStoreError → ScanError

-- `impl From<DriveTreeError> for ScanError`.
unfoldable pub of_tree_error : DriveTreeError → ScanError
of_tree_error DriveTreeError.rate_limited = ScanError.rate_limited
of_tree_error other = drive other

unfoldable pub is_retryable : ScanError → Bool
is_retryable ScanError.rate_limited = true
is_retryable (store _) = true
is_retryable (drive DriveTreeError.rate_limited) = true
is_retryable (drive DriveTreeError.forbidden) = true
is_retryable (drive DriveTreeError.unavailable) = true
is_retryable (drive DriveTreeError.transport) = true
is_retryable (drive _) = false

-- How `collect_roots` reads a failure of `get_file`.
unfoldable pub tree_error_of : DriveTransferError → DriveTreeError
tree_error_of DriveTransferError.unauthorized = DriveTreeError.unauthorized
tree_error_of DriveTransferError.not_found = DriveTreeError.not_found
tree_error_of DriveTransferError.rate_limited = DriveTreeError.rate_limited
tree_error_of DriveTransferError.forbidden = DriveTreeError.forbidden
tree_error_of DriveTransferError.invalid_response = DriveTreeError.invalid_response
tree_error_of DriveTransferError.server_unavailable = DriveTreeError.unavailable
tree_error_of (DriveTransferError.unexpected_status status) =
    DriveTreeError.unexpected_status status
tree_error_of DriveTransferError.sharing_rate_limit_exceeded = DriveTreeError.rate_limited
tree_error_of DriveTransferError.storage_quota_exceeded = DriveTreeError.forbidden
tree_error_of DriveTransferError.transport = DriveTreeError.transport

pub record WorkItem : Type 0 where
  pub folder_id : String
  pub page_token : Option String
  pub depth : ℤ

unfoldable pub work_of : ScanCheckpoint → WorkItem
work_of checkpoint = record {
  folder_id = checkpoint.folder_id;
  page_token = checkpoint.page_token;
  depth = checkpoint.depth;
}

-- `DriveTransferPort::get_file` and `DriveTreePort::list_children`.
pub record DrivePort (W : Type 0) : Type 0 where
  pub get_file : String → String → M W DriveTransferFailure DriveFileSnapshot
  pub list_children : String → String → Option String → M W DriveTreeError DriveChildPage

-- The operations of `ItemStorePort` that a scan calls.
pub record ScanStorePort (W : Type 0) : Type 0 where
  pub commit_scan_batch : ℕ → ItemBatchCommit → M W ItemStoreError ℕ
  pub list_committed_file_ids : ℕ → M W ItemStoreError (List String)
  pub list_scan_checkpoints : ℕ → M W ItemStoreError (List ScanCheckpoint)
  pub item_aggregates : ℕ → M W ItemStoreError ItemAggregates

-- What a run is given. Of tokio's `JoinSet`, `join_order` is the order in which the tasks of a wave
-- end, and `task_panics` tells whether a task's own end is a `JoinError`.
pub record ScanRun (W : Type 0) : Type 0 where
  pub drive_port : DrivePort W
  pub store_port : ScanStorePort W
  pub job_id : ℕ
  pub roots : List MigrationRoot
  pub source_token : String
  pub source_permission_id : String
  pub target_permission_id : String
  pub pause : W → Bool
  pub concurrency : ℕ
  pub events : Option (JobRuntimeEvent → W → W)
  pub clock : W → ℕ × W
  pub next_entity_id : W → ℕ × W
  pub join_order : W → List WorkItem → List WorkItem
  pub task_panics : WorkItem → W → Bool
