-- ===== src/Store/Sqlite.antt =====
-- src-tauri/src/infrastructure/item_store.rs: the store that a scan calls, over its tables. What SQLite
-- refuses is a parameter: a transaction that it cannot begin or commit, a statement that fails (also as
-- the parents of an item cannot be written as JSON), and a query that fails.
use gdom.Base.{
  ℕ, String, List, [], ◌∷◌, Option, none, some, Result, ok, err, ltb, length, if◌then◌else◌,
}
use gdom.Base.State.{M, return, ◌>>◌}
use gdom.Item.State.{MigrationItem, ScanCheckpoint}
use gdom.Transfer.Types.{ItemStoreError}
use gdom.Store.Rows.{
  Tables, ItemBatchCommit, insert_item, upsert_checkpoint, delete_checkpoint,
  list_committed_file_ids, list_scan_checkpoints,
}
use gdom.Store.Aggregates.{item_aggregates}
use gdom.Scan.Types.{ScanStorePort}
use gdom.Scan.Roots.{scan_checkpoint_batch_size}

-- The statements of a transaction.
pub data Statement : Type 0 where
  insert_item_row : MigrationItem → Statement
  upsert_checkpoint_row : ScanCheckpoint → Statement
  delete_checkpoint_row : String → Statement

abbrev pub run_statement : ℕ → Statement → Tables → Tables
run_statement job_id (Statement.insert_item_row item) tables = record tables {
  items = insert_item job_id item tables.items;
}
run_statement job_id (Statement.upsert_checkpoint_row checkpoint) tables = record tables {
  checkpoints = upsert_checkpoint job_id checkpoint tables.checkpoints;
}
run_statement job_id (Statement.delete_checkpoint_row folder_id) tables = record tables {
  checkpoints = delete_checkpoint job_id folder_id tables.checkpoints;
}

module _ (begins : Tables → Option String) (executes : Statement → Tables → Option String)
    (commits : Tables → Option String) (fails : Tables → Option String) where
  -- `.execute(&mut **tx)`: a statement that fails leaves what the transaction has so far.
  abbrev pub done_or :
      {A : Type 0} → Option String → A → Tables → Tables → Result ItemStoreError A × Tables
  done_or none value after before = (ok value, after)
  done_or (some message) value after before = (err (ItemStoreError.database message), before)

  abbrev pub execute : ℕ → Statement → M Tables ItemStoreError (Unit {0})
  execute job_id statement working =
      done_or (executes statement working) tt (run_statement job_id statement working) working

  module _ (job_id : ℕ) where
    unfoldable pub execute_items : List MigrationItem → M Tables ItemStoreError (Unit {0})
    execute_items [] = return tt
    execute_items (item ∷ items) = do
      execute job_id (Statement.insert_item_row item)
      execute_items items

    unfoldable pub execute_upserts : List ScanCheckpoint → M Tables ItemStoreError (Unit {0})
    execute_upserts [] = return tt
    execute_upserts (checkpoint ∷ checkpoints) = do
      execute job_id (Statement.upsert_checkpoint_row checkpoint)
      execute_upserts checkpoints

    unfoldable pub execute_deletes : List String → M Tables ItemStoreError (Unit {0})
    execute_deletes [] = return tt
    execute_deletes (folder_id ∷ folder_ids) = do
      execute job_id (Statement.delete_checkpoint_row folder_id)
      execute_deletes folder_ids

    -- `insert_scan_batch`, on the transaction's working copy of the tables.
    unfoldable pub execute_batch : ItemBatchCommit → M Tables ItemStoreError (Unit {0})
    unfolding execute_items execute_upserts execute_deletes
    execute_batch batch = do
      execute_items batch.items
      execute_upserts batch.checkpoints_upsert
      execute_deletes batch.checkpoints_delete

  -- `insert_scan_batch(..).await?; tx.commit().await?`: on an error the transaction is dropped, and what
  -- it made of the tables with it.
  unfoldable pub end_transaction :
      ℕ → Tables → Result ItemStoreError (Unit {0}) × Tables → Result ItemStoreError ℕ × Tables
  end_transaction size committed (err e, working) = (err e, committed)
  end_transaction size committed (ok _, working) = done_or (commits working) size working committed

  abbrev pub begun :
      Option String → Tables → Result ItemStoreError ℕ × Tables → Result ItemStoreError ℕ × Tables
  begun none committed rest = rest
  begun (some message) committed rest = (err (ItemStoreError.database message), committed)

  unfoldable pub commit_scan_batch : ℕ → ItemBatchCommit → M Tables ItemStoreError ℕ
  unfolding execute_batch end_transaction
  commit_scan_batch job_id batch tables =
      if ltb scan_checkpoint_batch_size (length batch.items)
      then (
        err (ItemStoreError.batch_too_large (length batch.items) scan_checkpoint_batch_size),
        tables,
      )
      else begun (begins tables) tables
          (end_transaction (length batch.items) tables (execute_batch job_id batch tables))

  abbrev pub query : {A : Type 0} → (Tables → A) → M Tables ItemStoreError A
  query answer tables = done_or (fails tables) (answer tables) tables tables

  unfoldable pub sqlite : ScanStorePort Tables
  unfolding commit_scan_batch
  sqlite = record {
    commit_scan_batch = commit_scan_batch;
    list_committed_file_ids = λ job_id. query (list_committed_file_ids job_id);
    list_scan_checkpoints = λ job_id. query (list_scan_checkpoints job_id);
    item_aggregates = λ job_id. query (λ tables. item_aggregates job_id tables.items);
  }
