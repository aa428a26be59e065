-- ===== src/Store/Rows.antt =====
-- The tables migration_items and scan_checkpoints, and what insert_scan_batch of
-- src-tauri/src/infrastructure/item_store.rs makes of them. A row is the record that is read from it.
use gdom.Base.{
  ℕ, String, List, [], ◌∷◌, Bool, false, not, ◌&&◌, none, ◌==◌, str_eq, filter, if◌then◌else◌,
}
use gdom.Item.State.{MigrationItem, ScanCheckpoint}

pub record ItemBatchCommit : Type 0 where
  pub items : List MigrationItem
  pub checkpoints_upsert : List ScanCheckpoint
  pub checkpoints_delete : List String

pub record Tables : Type 0 where
  pub items : List MigrationItem
  pub checkpoints : List ScanCheckpoint

module _ (job_id : ℕ) where
  -- The keys (job_id, file_id) and (job_id, folder_id).
  abbrev pub has_file_id : String → MigrationItem → Bool
  has_file_id file_id row = row.job_id == job_id && str_eq row.file_id file_id

  abbrev pub has_folder_id : String → ScanCheckpoint → Bool
  has_folder_id folder_id row = row.job_id == job_id && str_eq row.folder_id folder_id

  -- The columns that an insertion leaves out are 0 and NULL.
  abbrev pub row_of : MigrationItem → MigrationItem
  row_of item = record item { job_id = job_id; canary_selected = false; last_error = none }

  -- `ON CONFLICT(job_id, file_id) DO NOTHING`.
  abbrev pub insert_item : MigrationItem → List MigrationItem → List MigrationItem
  insert_item item [] = row_of item ∷ []
  insert_item item (row ∷ rows) =
      row ∷ (if has_file_id item.file_id row then rows else insert_item item rows)

  -- `ON CONFLICT(job_id, folder_id) DO UPDATE`.
  abbrev pub upsert_checkpoint : ScanCheckpoint → List ScanCheckpoint → List ScanCheckpoint
  upsert_checkpoint checkpoint [] = record checkpoint { job_id = job_id } ∷ []
  upsert_checkpoint checkpoint (row ∷ rows) =
      if has_folder_id checkpoint.folder_id row
      then record row { page_token = checkpoint.page_token; depth = checkpoint.depth } ∷ rows
      else row ∷ upsert_checkpoint checkpoint rows

  abbrev pub delete_checkpoint : String → List ScanCheckpoint → List ScanCheckpoint
  delete_checkpoint folder_id = filter (λ row. not (has_folder_id folder_id row))

  abbrev pub insert_items : List MigrationItem → List MigrationItem → List MigrationItem
  insert_items [] rows = rows
  insert_items (item ∷ items) rows = insert_items items (insert_item item rows)

  abbrev pub upsert_checkpoints : List ScanCheckpoint → List ScanCheckpoint → List ScanCheckpoint
  upsert_checkpoints [] rows = rows
  upsert_checkpoints (checkpoint ∷ checkpoints) rows =
      upsert_checkpoints checkpoints (upsert_checkpoint checkpoint rows)

  abbrev pub delete_checkpoints : List String → List ScanCheckpoint → List ScanCheckpoint
  delete_checkpoints [] rows = rows
  delete_checkpoints (folder_id ∷ folder_ids) rows =
      delete_checkpoints folder_ids (delete_checkpoint folder_id rows)

  unfoldable pub insert_scan_batch : ItemBatchCommit → Tables → Tables
  insert_scan_batch batch tables = record {
    items = insert_items batch.items tables.items;
    checkpoints =
        delete_checkpoints batch.checkpoints_delete
          (upsert_checkpoints batch.checkpoints_upsert tables.checkpoints);
  }

  abbrev pub file_ids : List MigrationItem → List String
  file_ids [] = []
  file_ids (row ∷ rows) =
      if row.job_id == job_id then row.file_id ∷ file_ids rows else file_ids rows

  unfoldable pub list_committed_file_ids : Tables → List String
  list_committed_file_ids tables = file_ids tables.items

  unfoldable pub list_scan_checkpoints : Tables → List ScanCheckpoint
  list_scan_checkpoints tables = filter (λ row. row.job_id == job_id) tables.checkpoints
