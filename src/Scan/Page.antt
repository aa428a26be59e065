-- ===== src/Scan/Page.antt =====
-- src-tauri/src/application/scanner.rs: `apply_page`.
use gdom.Base.{
  ℕ, zero, suc, ℤ, succ_ℤ, String, List, [], ◌∷◌, ◌++◌, map, true, false, Option, none, some, take,
  drop, min, length, is_empty, if◌then◌else◌,
}
use gdom.Base.State.{M, return, ◌>>=◌, ◌>>◌}
use gdom.Item.State.{MigrationItem, ScanCheckpoint}
use gdom.Drive.Types.{DriveChild}
use gdom.Store.Rows.{ItemBatchCommit}
use gdom.Scan.Types.{ScanError, ScanRun, WorkItem, DriveChildPage, work_of}
use gdom.Scan.Roots.{
  contains, timestamp, fresh_id, item_of, recurses_into, checkpoint_of, commit, emit_scan_progress,
  scan_checkpoint_batch_size,
}

-- `discovered` and `folder_checkpoints`, and `visited` as the loop over the files leaves it.
pub record Findings : Type 0 where
  pub discovered : List MigrationItem
  pub folder_checkpoints : List ScanCheckpoint
  pub visited : List String

-- What the pages of a run share.
pub record ScanState : Type 0 where
  pub visited : List String
  pub queue : List WorkItem

abbrev pub upsert_only : List MigrationItem → List ScanCheckpoint → ItemBatchCommit
upsert_only items checkpoints = record {
  items = items;
  checkpoints_upsert = checkpoints;
  checkpoints_delete = [];
}

module _ {W : Type 0} (run : ScanRun W) where
  -- The pushes of one new child.
  unfoldable pub push_child : ℕ → String → ℤ → DriveChild → Findings → Findings
  push_child id created_at depth child rest = record rest {
    discovered = item_of run id created_at child.id depth child ∷ rest.discovered;
    folder_checkpoints =
        if recurses_into run child
        then checkpoint_of run child.id depth ∷ rest.folder_checkpoints
        else rest.folder_checkpoints;
  }

  -- The loop over the files of a page.
  unfoldable pub discover : String → ℤ → List DriveChild → List String → M W ScanError Findings
  unfolding push_child
  discover created_at depth [] visited =
      return (record { discovered = []; folder_checkpoints = []; visited = visited })
  discover created_at depth (child ∷ children) visited = elim (contains visited child.id) [
    | true ↦ discover created_at depth children visited
    | false ↦ do
      id ← fresh_id run
      rest ← discover created_at depth children (child.id ∷ visited)
      return (push_child id created_at depth child rest)
  ]

  -- The loop over the batches, of which there are no more than items. It leaves the checkpoints
  -- that no batch took.
  unfoldable pub commit_items :
      ℕ → List MigrationItem → List ScanCheckpoint → M W ScanError (List ScanCheckpoint)
  commit_items zero items folders = return folders
  commit_items (suc left) items folders =
      if is_empty items
      then return folders
      else (let taken = min (length items) scan_checkpoint_batch_size in
          let upserted = min (length folders) taken in
          do
            _ ← commit run (upsert_only (take taken items) (take upserted folders))
            commit_items left (drop taken items) (drop upserted folders))

  unfoldable pub commit_folders : List ScanCheckpoint → M W ScanError (Unit {0})
  commit_folders folders =
      if is_empty folders then return tt else do _ ← commit run (upsert_only [] folders); return tt

  -- The next page of the folder, or its end; and what that adds to the queue.
  unfoldable pub commit_cursor :
      String → ℤ → Option String → List WorkItem → M W ScanError (List WorkItem)
  commit_cursor folder_id depth none queue = do
    _ ←
        commit run
          (record { items = []; checkpoints_upsert = []; checkpoints_delete = folder_id ∷ [] })
    return queue
  commit_cursor folder_id depth (some next) queue = do
    _ ← commit run (
        upsert_only [] (
          record {
            job_id = run.job_id;
            folder_id = folder_id;
            page_token = some next;
            depth = depth;
          }
          ∷ []))
    return (queue ++ record { folder_id = folder_id; page_token = some next; depth = depth } ∷ [])

  unfoldable pub apply_page : String → ℤ → DriveChildPage → ScanState → M W ScanError ScanState
  unfolding discover commit_items commit_folders commit_cursor
  apply_page folder_id depth page state = do
    created_at ← timestamp run
    found ← discover created_at (succ_ℤ depth) page.files state.visited
    folders ← commit_items (length found.discovered) found.discovered found.folder_checkpoints
    commit_folders folders
    queue ← commit_cursor folder_id depth page.next_page_token state.queue
    emit_scan_progress run
    return
        (record { visited = found.visited; queue = queue ++ map work_of found.folder_checkpoints })
