-- ===== src/Store/Batch.antt =====
-- What a committed batch makes of the tables, told row by row and apart from the statements.
use gdom.Base.{
  ℕ, ◌≡◌, refl, ◌⊎◌, inl, inr, ◌∙◌, ap, subst, sym, String, List, [], ◌∷◌, true, false, not, Option,
  none, some, Result, ok, err, length, filter, any, arith, str_eq, ◌==◌, ==_iff, if◌then◌else◌,
}
use gdom.Item.State.{MigrationItem, ScanCheckpoint}
use gdom.Transfer.Types.{ItemStoreError}
use gdom.Store.Rows.{
  Tables, ItemBatchCommit, insert_scan_batch, insert_item, insert_items, upsert_checkpoint,
  upsert_checkpoints, delete_checkpoint, delete_checkpoints,
}
use gdom.Store.Lookups.{
  item_at, has_item, token_at, item_at-inserted, items_at-kept, item_at-presents, token_at-upsert,
  token_at-delete,
}
use gdom.Store.Sqlite.{Statement, commit_scan_batch}
use gdom.Store.Committed.{CommitEnds, commit_scan_batch-CommitEnds}

module _ (job_id : ℕ) where
  -- The row is an item of the batch, stored for the job, outside the canary and without an error.
  abbrev pub IsFrom : List MigrationItem → String → MigrationItem → Type 0
  IsFrom [] file_id row = ⊥
  IsFrom (item ∷ items) file_id row =
      ((item.file_id ≡ file_id)
        × (row ≡ record item { job_id = job_id; canary_selected = false; last_error = none }))
      ⊎ IsFrom items file_id row

  -- The token of a folder after some checkpoints: that of the last one for the folder, or the old one.
  abbrev pub last_token :
      String → List ScanCheckpoint → Option (Option String) → Option (Option String)
  last_token folder_id [] old = old
  last_token folder_id (checkpoint ∷ checkpoints) old =
      last_token folder_id checkpoints
        (if str_eq checkpoint.folder_id folder_id then some checkpoint.page_token else old)

  abbrev pub other_items : List MigrationItem → List MigrationItem
  other_items = filter (λ row. not (row.job_id == job_id))

  abbrev pub other_checkpoints : List ScanCheckpoint → List ScanCheckpoint
  other_checkpoints = filter (λ row. not (row.job_id == job_id))

  -- The tables with a batch of the job.
  pub record IsBatchStored (batch : ItemBatchCommit) (before after : Tables) : Type 0 where
    pub stored :
        (file_id : String)
        → any (λ (item : MigrationItem). str_eq item.file_id file_id) batch.items ≡ true
        → has_item job_id after.items file_id ≡ true
    pub kept :
        (file_id : String) (row : MigrationItem)
        → item_at job_id file_id before.items ≡ some row
        → item_at job_id file_id after.items ≡ some row
    pub nothing_else :
        (file_id : String) (row : MigrationItem)
        → item_at job_id file_id after.items ≡ some row
        → (item_at job_id file_id before.items ≡ some row) ⊎ IsFrom batch.items file_id row
    pub tokens :
        (folder_id : String)
        → token_at job_id folder_id after.checkpoints ≡ (
            if any (λ deleted. str_eq deleted folder_id) batch.checkpoints_delete
            then none
            else last_token folder_id batch.checkpoints_upsert
                (token_at job_id folder_id before.checkpoints))
    pub same_other_items : other_items after.items ≡ other_items before.items
    pub same_other_checkpoints :
        other_checkpoints after.checkpoints ≡ other_checkpoints before.checkpoints

  insert_items-IsFrom :
      (items rows : List MigrationItem) (file_id : String) (row : MigrationItem)
      → item_at job_id file_id (insert_items job_id items rows) ≡ some row
      → (item_at job_id file_id rows ≡ some row) ⊎ IsFrom items file_id row
  insert_items-IsFrom [] rows file_id row found = inl found
  insert_items-IsFrom (item ∷ items) rows file_id row found =
      elim (insert_items-IsFrom items (insert_item job_id item rows) file_id row found) [
        | inl here ↦ elim (item_at-inserted job_id item file_id rows row here) [
          | inl old ↦ inl old
          | inr (same, new) ↦ inr (inl (sym same, new))
        ]
        | inr later ↦ inr (inr later)
      ]

  token_at-upserts :
      (checkpoints rows : List ScanCheckpoint) (folder_id : String)
      → token_at job_id folder_id (upsert_checkpoints job_id checkpoints rows)
        ≡ last_token folder_id checkpoints (token_at job_id folder_id rows)
  token_at-upserts [] rows folder_id = refl
  token_at-upserts (checkpoint ∷ checkpoints) rows folder_id =
      token_at-upserts checkpoints (upsert_checkpoint job_id checkpoint rows) folder_id
      ∙ ap (last_token folder_id checkpoints) (token_at-upsert job_id checkpoint folder_id rows)

  token_at-deletes :
      (folder_ids : List String) (rows : List ScanCheckpoint) (folder_id : String)
      → token_at job_id folder_id (delete_checkpoints job_id folder_ids rows) ≡ (
          if any (λ deleted. str_eq deleted folder_id) folder_ids
          then none
          else token_at job_id folder_id rows)
  token_at-deletes [] rows folder_id = refl
  token_at-deletes (deleted ∷ folder_ids) rows folder_id = ground (
    arith,
    token_at-deletes folder_ids (delete_checkpoint job_id deleted rows) folder_id,
    token_at-delete job_id deleted folder_id rows,
  )

  insert_item_other :
      (item : MigrationItem) (rows : List MigrationItem)
      → other_items (insert_item job_id item rows) ≡ other_items rows
  insert_item_other item [] = ground (arith, ==_iff job_id job_id)
  insert_item_other item (row ∷ rows) = ground (arith, insert_item_other item rows)

  insert_items_other :
      (items rows : List MigrationItem)
      → other_items (insert_items job_id items rows) ≡ other_items rows
  insert_items_other [] rows = refl
  insert_items_other (item ∷ items) rows =
      insert_items_other items (insert_item job_id item rows) ∙ insert_item_other item rows

  upsert_other :
      (checkpoint : ScanCheckpoint) (rows : List ScanCheckpoint)
      → other_checkpoints (upsert_checkpoint job_id checkpoint rows) ≡ other_checkpoints rows
  upsert_other checkpoint [] = ground (arith, ==_iff job_id job_id)
  upsert_other checkpoint (row ∷ rows) = ground (arith, upsert_other checkpoint rows)

  upserts_other :
      (checkpoints rows : List ScanCheckpoint)
      → other_checkpoints (upsert_checkpoints job_id checkpoints rows) ≡ other_checkpoints rows
  upserts_other [] rows = refl
  upserts_other (checkpoint ∷ checkpoints) rows =
      upserts_other checkpoints (upsert_checkpoint job_id checkpoint rows)
      ∙ upsert_other checkpoint rows

  delete_other :
      (folder_id : String) (rows : List ScanCheckpoint)
      → other_checkpoints (delete_checkpoint job_id folder_id rows) ≡ other_checkpoints rows
  delete_other folder_id [] = refl
  delete_other folder_id (row ∷ rows) = ground (arith, delete_other folder_id rows)

  deletes_other :
      (folder_ids : List String) (rows : List ScanCheckpoint)
      → other_checkpoints (delete_checkpoints job_id folder_ids rows) ≡ other_checkpoints rows
  deletes_other [] rows = refl
  deletes_other (folder_id ∷ folder_ids) rows =
      deletes_other folder_ids (delete_checkpoint job_id folder_id rows)
      ∙ delete_other folder_id rows

  insert_scan_batch-IsBatchStored :
      (batch : ItemBatchCommit) (tables : Tables)
      → IsBatchStored batch tables (insert_scan_batch job_id batch tables)
  unfolding insert_scan_batch
  insert_scan_batch-IsBatchStored batch tables =
      let upserted = upsert_checkpoints job_id batch.checkpoints_upsert tables.checkpoints in
      record {
        stored = item_at-presents job_id batch.items tables.items;
        kept = items_at-kept job_id batch.items tables.items;
        nothing_else = insert_items-IsFrom batch.items tables.items;
        tokens = λ folder_id.
            token_at-deletes batch.checkpoints_delete upserted folder_id
            ∙ ap
                (λ token.
                  if any (λ deleted. str_eq deleted folder_id) batch.checkpoints_delete
                  then none
                  else token)
                (token_at-upserts batch.checkpoints_upsert tables.checkpoints folder_id);
        same_other_items = insert_items_other batch.items tables.items;
        same_other_checkpoints =
            deletes_other batch.checkpoints_delete upserted
            ∙ upserts_other batch.checkpoints_upsert tables.checkpoints;
      }

module _ (begins : Tables → Option String) (executes : Statement → Tables → Option String)
    (commits : Tables → Option String) (fails : Tables → Option String) (job_id : ℕ)
    (batch : ItemBatchCommit) where
  -- The answer of a commit: an error with the tables as they were, or the number of its items with the
  -- tables with the batch.
  abbrev pub IsAllOrNothing : Tables → Result ItemStoreError ℕ → Tables → Type 0
  IsAllOrNothing before (err e) after = after ≡ before
  IsAllOrNothing before (ok n) after =
      (n ≡ length batch.items) × IsBatchStored job_id batch before after

  whole :
      (before : Tables) (r : Result ItemStoreError ℕ) (after : Tables)
      → CommitEnds begins executes commits fails job_id batch before r after
      → IsAllOrNothing before r after
  whole before (err e) after h = h.0
  whole before (ok n) after h = (
    h.0,
    subst (IsBatchStored job_id batch before) (sym h.1)
        (insert_scan_batch-IsBatchStored job_id batch before),
  )

  -- A commit of a scan batch, whatever SQLite refuses - to begin, any of the statements, or to commit -
  -- leaves the tables as they were when it answers an error. When it succeeds, it answers the number of
  -- items; every item of the batch is found; every row of the job that was found is found unchanged; a
  -- row that is found is an old one or an item of the batch; a folder of a deletion has no checkpoint
  -- and any other one has the token of its last upsert, or the one that it had; and the rows of other
  -- jobs are untouched.
  pub commit_scan_batch-IsAllOrNothing :
      (before : Tables)
      → IsAllOrNothing before
          (commit_scan_batch begins executes commits fails job_id batch before).0
          (commit_scan_batch begins executes commits fails job_id batch before).1
  commit_scan_batch-IsAllOrNothing before =
      whole before _ _
        (commit_scan_batch-CommitEnds begins executes commits fails job_id batch before)
