-- ===== src/Scan/Roots.antt =====
-- src-tauri/src/application/scanner.rs: `collect_roots`, `persist_roots` and `seed_roots`, and what
-- the steps of a scan share.
use gdom.Base.{
  ℕ, zero, suc, ℤ, pos, String, List, [], ◌∷◌, Bool, true, false, ◌&&◌, Option, none, some, str_eq,
  any, filter, take, drop, length, is_empty, if◌then◌else◌, ok, ◌+◌,
}
use gdom.Base.State.{M, return, handle, modify, map_err, ◌>>=◌}
use gdom.Time.{iso_text}
use gdom.Job.Types.{MigrationRoot}
use gdom.Item.State.{MigrationItem, ScanCheckpoint}
use gdom.Drive.Types.{DriveFolderOwner, DriveFileSnapshot, DriveChild}
use gdom.Drive.Failure.{DriveTransferFailure}
use gdom.Classifier.{classify_drive_child, item_state, should_recurse}
use gdom.Transfer.Types.{JobRuntimeEvent, ItemAggregates}
use gdom.Store.Rows.{ItemBatchCommit}
use gdom.Scan.Types.{ScanError, ScanRun, tree_error_of}

-- `HashSet::contains`.
abbrev pub contains : List String → String → Bool
contains ids id = any (str_eq id) ids

abbrev pub owner_of : List DriveFolderOwner → Option String
owner_of [] = none
owner_of (owner ∷ _) = some owner.permission_id

-- `SCAN_CHECKPOINT_BATCH_SIZE`.
abbrev pub scan_checkpoint_batch_size : ℕ
scan_checkpoint_batch_size = 100

-- The fields of a `DriveChild` for a root.
unfoldable pub child_of : DriveFileSnapshot → DriveChild
child_of snapshot = record {
  id = snapshot.id;
  name = snapshot.name;
  mime_type = snapshot.mime_type;
  parents = snapshot.parents;
  owners = snapshot.owners;
  drive_id = snapshot.drive_id;
  quota_bytes_used = snapshot.quota_bytes_used;
  trashed = snapshot.trashed;
  shortcut_target_id = none;
  shortcut_target_mime_type = none;
  shortcut_target_resource_key = none;
  resource_key = none;
  modified_time = none;
  web_view_link = none;
}

module _ {W : Type 0} (run : ScanRun W) where
  -- `iso_now()` and `next_entity_id()`.
  unfoldable pub timestamp : M W ScanError String
  timestamp w = let (ms, after) = run.clock w in (ok (iso_text ms), after)

  unfoldable pub fresh_id : M W ScanError ℕ
  fresh_id w = let (id, after) = run.next_entity_id w in (ok id, after)

  -- The `MigrationItem` that stands for a child.
  unfoldable pub item_of : ℕ → String → String → ℤ → DriveChild → MigrationItem
  item_of id created_at file_id depth child = record {
    id = id;
    job_id = run.job_id;
    file_id = file_id;
    name = child.name;
    mime_type = child.mime_type;
    depth = depth;
    original_parent_ids = child.parents;
    original_owner_permission_id = owner_of child.owners;
    quota_bytes_used = child.quota_bytes_used;
    target_permission_id = none;
    state =
        item_state (classify_drive_child child run.source_permission_id run.target_permission_id);
    canary_selected = false;
    last_error = none;
    created_at = created_at;
    updated_at = created_at;
  }

  unfoldable pub recurses_into : DriveChild → Bool
  recurses_into child =
      should_recurse (classify_drive_child child run.source_permission_id run.target_permission_id)

  unfoldable pub checkpoint_of : String → ℤ → ScanCheckpoint
  checkpoint_of folder_id depth = record {
    job_id = run.job_id;
    folder_id = folder_id;
    page_token = none;
    depth = depth;
  }

  abbrev pub commit : ItemBatchCommit → M W ScanError ℕ
  commit batch = map_err ScanError.store (run.store_port.commit_scan_batch run.job_id batch)

  -- The pushes of one root onto `items` and `upserts`.
  unfoldable pub push_root :
      Bool → ℕ → String → MigrationRoot → DriveChild → ItemBatchCommit → ItemBatchCommit
  push_root recursive id created_at root child rest = record {
    items = item_of id created_at root.root_file_id (pos 0) child ∷ rest.items;
    checkpoints_upsert =
        if recursive && recurses_into child
        then checkpoint_of root.root_file_id (pos 0) ∷ rest.checkpoints_upsert
        else rest.checkpoints_upsert;
    checkpoints_delete = [];
  }

  -- The loop of `collect_roots`.
  unfoldable pub collect_loop :
      Bool → String → List MigrationRoot → List String → M W ScanError ItemBatchCommit
  unfolding push_root
  collect_loop recursive created_at [] visited =
      return (record { items = []; checkpoints_upsert = []; checkpoints_delete = [] })
  collect_loop recursive created_at (root ∷ roots) visited =
      elim (contains visited root.root_file_id) [
        | true ↦ collect_loop recursive created_at roots visited
        | false ↦ do
          snapshot ←
              map_err
                (λ (failure : DriveTransferFailure). ScanError.drive (tree_error_of failure.kind))
                (run.drive_port.get_file run.source_token root.root_file_id)
          id ← fresh_id
          rest ← collect_loop recursive created_at roots (root.root_file_id ∷ visited)
          return (push_root recursive id created_at root (child_of snapshot) rest)
      ]

  unfoldable pub collect_roots : Bool → M W ScanError ItemBatchCommit
  unfolding collect_loop timestamp
  collect_roots recursive = do
    created_at ← timestamp
    collect_loop recursive created_at run.roots []

  -- The batch that `persist_roots` makes of a chunk.
  unfoldable pub root_batch : List MigrationItem → List ScanCheckpoint → ItemBatchCommit
  root_batch items checkpoints = record {
    items = items;
    checkpoints_upsert =
        filter
          (λ (checkpoint : ScanCheckpoint).
            any (λ (item : MigrationItem). str_eq item.file_id checkpoint.folder_id) items)
          checkpoints;
    checkpoints_delete = [];
  }

  -- The loop over the chunks, of which there are no more than items.
  unfoldable pub persist_chunks :
      ℕ → List MigrationItem → List ScanCheckpoint → M W ScanError (Unit {0})
  unfolding root_batch
  persist_chunks zero items checkpoints = return tt
  persist_chunks (suc left) items checkpoints = if is_empty items then return tt else do
    _ ← commit (root_batch (take scan_checkpoint_batch_size items) checkpoints)
    persist_chunks left (drop scan_checkpoint_batch_size items) checkpoints

  unfoldable pub persist_roots : ItemBatchCommit → M W ScanError (Unit {0})
  unfolding persist_chunks
  persist_roots roots = persist_chunks (length roots.items) roots.items roots.checkpoints_upsert

  unfoldable pub seed_roots : Bool → M W ScanError (Unit {0})
  unfolding collect_roots persist_roots
  seed_roots recursive = do batch ← collect_roots recursive; persist_roots batch

  unfoldable pub emit_progress :
      (JobRuntimeEvent → W → W) → ItemAggregates → M W ScanError (Unit {0})
  emit_progress sink aggregates = modify (
      sink (
        JobRuntimeEvent.scan_progress run.job_id aggregates.eligible_files
          aggregates.eligible_folders
          (aggregates.skipped_already_owned_by_target + aggregates.skipped_not_owned_by_source
            + aggregates.skipped_shared_drive + aggregates.skipped_shortcuts
            + aggregates.skipped_trashed + aggregates.skipped_ineligible)))

  unfoldable pub emit_scan_progress : M W ScanError (Unit {0})
  unfolding emit_progress
  emit_scan_progress = elim run.events [
    | none ↦ return tt
    | some sink ↦
        handle (run.store_port.item_aggregates run.job_id) (emit_progress sink) (λ _. return tt)
  ]
