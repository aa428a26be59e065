-- ===== src/Transfer/TestDrive.antt =====
-- A Drive and a store for the tests, in which every call succeeds, and some that fail.
use gdom.Base.{
  ℕ, suc, String, true, false, none, some, [], ◌∷◌, ok, err, pos, if◌then◌else◌, str_eq,
}
use gdom.Job.Status.{JobStatus}
use gdom.Job.Types.{MigrationJob}
use gdom.Job.Tests.{new}
use gdom.Item.State.{ItemState, MigrationItem}
use gdom.Drive.Types.{DriveFileSnapshot, DriveFolderOwner, DrivePermission}
use gdom.Drive.Failure.{DriveTransferError, of_kind}
use gdom.Transfer.Types.{TransferRun, ItemAggregates, DriveTransferPort, ItemStorePort}

abbrev pub owner : String → DriveFolderOwner
owner id = record { permission_id = id; email_address = none; avatar_url = none }

abbrev pub snapshot : String → DriveFileSnapshot
snapshot owner_id = record {
  id = "file";
  name = "Report";
  mime_type = "text/plain";
  parents = "a" ∷ "b" ∷ [];
  owners = owner owner_id ∷ [];
  trashed = false;
  drive_id = none;
  quota_bytes_used = none;
  permissions = [];
}

abbrev pub permission : DrivePermission
permission = record {
  id = "perm";
  role = "writer";
  type_ = "user";
  email_address = some "target@example.com";
  pending_owner = true;
}

-- The world counts the calls of Drive. The source sees the file before the transfer, the target
-- after it.
abbrev pub drive : DriveTransferPort ℕ
drive = record {
  get_file = λ token id w.
      (ok (snapshot (if str_eq token "target-token" then "target" else "source")), suc w);
  create_pending_owner = λ token id email w. (ok permission, suc w);
  update_pending_owner = λ token id perm w. (ok permission, suc w);
  accept_ownership = λ token id perm w. (ok permission, suc w);
}

abbrev pub new_item : ItemState → MigrationItem
new_item state = record {
  id = 1;
  job_id = 1;
  file_id = "file";
  name = "Report";
  mime_type = "text/plain";
  depth = pos 0;
  original_parent_ids = "b" ∷ "a" ∷ [];
  original_owner_permission_id = some "source";
  quota_bytes_used = none;
  target_permission_id = none;
  state = state;
  canary_selected = false;
  last_error = none;
  created_at = "";
  updated_at = "";
}

abbrev pub aggregates : ItemAggregates
aggregates = record {
  total = 1;
  completed = 1;
  failed = 0;
  skipped = 0;
  eligible = 0;
  eligible_files = 0;
  eligible_folders = 0;
  skipped_already_owned_by_target = 0;
  skipped_not_owned_by_source = 0;
  skipped_shared_drive = 0;
  skipped_shortcuts = 0;
  skipped_trashed = 0;
  skipped_ineligible = 0;
  estimated_quota_bytes = 0;
}

abbrev pub store : ItemStorePort ℕ
store = record {
  item_aggregates = λ job w. (ok aggregates, w);
  list_items_for_transfer = λ job w. (ok (new_item ItemState.eligible ∷ []), w);
  list_canary_cohort = λ job w. (ok [], w);
  save_item = λ item w. (ok tt, w);
}

abbrev pub run : TransferRun ℕ
run = record {
  drive_port = drive;
  store_port = store;
  sleep = λ secs w. w;
  jitter_secs = λ w. (0, w);
  clock = λ w. (0, w);
  source_token = "source-token";
  target_token = "target-token";
  source_permission_id = "source";
  target_permission_id = "target";
  target_email = "Target@example.com";
  pause = none;
  cancel = none;
  job_id = 1;
  events = none;
}

-- The same, with a Drive that has no such file, and with one that is never available.
abbrev pub failing : DriveTransferError → TransferRun ℕ
failing kind = record run {
  drive_port = record drive { get_file = λ token id w. (err (of_kind kind), suc w) };
}

abbrev pub job : JobStatus → MigrationJob
job status = record new { status = status }
