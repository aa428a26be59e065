-- ===== src/Store/Lookups.antt =====
-- What a key finds after an insertion, an update and a deletion.
use gdom.Base.{
  ℕ, ◌≡◌, refl, ◌⊎◌, String, List, [], ◌∷◌, Bool, true, false, Option, none, some, ◌==◌, ==_iff,
  str_eq, eq_iff, arith, find?, is_some, if◌then◌else◌, All, any, inl, inr, subst, sym, ap,
  Bool-cases, Option-cases,
}
use gdom.Item.State.{MigrationItem, ScanCheckpoint}
use gdom.Store.Rows.{
  has_file_id, has_folder_id, row_of, insert_item, upsert_checkpoint, delete_checkpoint,
  insert_items, upsert_checkpoints,
}

module _ (job_id : ℕ) where
  abbrev pub item_at : String → List MigrationItem → Option MigrationItem
  item_at file_id = find? (has_file_id job_id file_id)

  abbrev pub has_item : List MigrationItem → String → Bool
  has_item rows file_id = is_some (item_at file_id rows)

  -- The page token of the checkpoint of a folder.
  abbrev pub token_at : String → List ScanCheckpoint → Option (Option String)
  token_at folder_id [] = none
  token_at folder_id (row ∷ rows) =
      if has_folder_id job_id folder_id row then some row.page_token else token_at folder_id rows

  -- An insertion changes no row that is there.
  pub item_at-kept :
      (item : MigrationItem) (file_id : String) (rows : List MigrationItem) (row : MigrationItem)
      → item_at file_id rows ≡ some row
      → item_at file_id (insert_item job_id item rows) ≡ some row
  item_at-kept item file_id [] row found = cc
  item_at-kept item file_id (other ∷ rows) row found = ground (
    arith,
    item_at-kept item file_id rows row,
    eq_iff other.file_id file_id,
    eq_iff other.file_id item.file_id,
  )

  pub item_at-inserted :
      (item : MigrationItem) (file_id : String) (rows : List MigrationItem) (row : MigrationItem)
      → item_at file_id (insert_item job_id item rows) ≡ some row
      → (item_at file_id rows ≡ some row) ⊎ ((file_id ≡ item.file_id) × (row ≡ row_of job_id item))
  item_at-inserted item file_id [] row found = ground (arith, eq_iff item.file_id file_id)
  item_at-inserted item file_id (other ∷ rows) row found =
      ground (arith, item_at-inserted item file_id rows row)

  pub item_at-present :
      (item : MigrationItem) (rows : List MigrationItem)
      → has_item (insert_item job_id item rows) item.file_id ≡ true
  item_at-present item [] = ground (arith, ==_iff job_id job_id, eq_iff item.file_id item.file_id)
  item_at-present item (other ∷ rows) = ground (arith, item_at-present item rows)

  pub token_at-upsert :
      (checkpoint : ScanCheckpoint) (folder_id : String) (rows : List ScanCheckpoint)
      → token_at folder_id (upsert_checkpoint job_id checkpoint rows) ≡ (
          if str_eq checkpoint.folder_id folder_id
          then some checkpoint.page_token
          else token_at folder_id rows)
  token_at-upsert checkpoint folder_id [] = ground (arith, ==_iff job_id job_id)
  token_at-upsert checkpoint folder_id (row ∷ rows) = ground (
    arith,
    token_at-upsert checkpoint folder_id rows,
    eq_iff row.folder_id folder_id,
    eq_iff row.folder_id checkpoint.folder_id,
    eq_iff checkpoint.folder_id folder_id,
  )

  pub token_at-delete :
      (deleted folder_id : String) (rows : List ScanCheckpoint)
      → token_at folder_id (delete_checkpoint job_id deleted rows)
        ≡ (if str_eq deleted folder_id then none else token_at folder_id rows)
  token_at-delete deleted folder_id [] = ground arith
  token_at-delete deleted folder_id (row ∷ rows) = ground (
    arith,
    token_at-delete deleted folder_id rows,
    eq_iff row.folder_id folder_id,
    eq_iff row.folder_id deleted,
    eq_iff deleted folder_id,
  )

  -- The same of many rows.
  pub item_at-inserts :
      (P : String → MigrationItem → Type 0) (items rows : List MigrationItem)
      → ((file_id : String) (row : MigrationItem) → item_at file_id rows ≡ some row → P file_id row)
      → All (λ (item : MigrationItem). P item.file_id (row_of job_id item)) items
      → (file_id : String) (row : MigrationItem)
      → item_at file_id (insert_items job_id items rows) ≡ some row
      → P file_id row
  item_at-inserts P [] rows old new file_id row found = old file_id row found
  item_at-inserts P (item ∷ items) rows old new file_id row found =
      item_at-inserts P items (insert_item job_id item rows)
        (λ f r found. elim (item_at-inserted item f rows r found) [
          | inl before ↦ old f r before
          | inr (p, q) ↦ subst (λ g. P g r) (sym p) (subst (P item.file_id) (sym q) new.0)
        ])
        new.1 file_id row found

  pub items_at-kept :
      (items rows : List MigrationItem) (file_id : String) (row : MigrationItem)
      → item_at file_id rows ≡ some row
      → item_at file_id (insert_items job_id items rows) ≡ some row
  items_at-kept [] rows file_id row found = found
  items_at-kept (item ∷ items) rows file_id row found =
      items_at-kept items (insert_item job_id item rows) file_id row
        (item_at-kept item file_id rows row found)

  pub has_item-kept :
      (rows rows' : List MigrationItem) (file_id : String)
      → ((row : MigrationItem) → item_at file_id rows ≡ some row → item_at file_id rows' ≡ some row)
      → has_item rows file_id ≡ true
      → has_item rows' file_id ≡ true
  has_item-kept rows rows' file_id kept found = elim (Option-cases (item_at file_id rows)) [
    | inl absent ↦ cc
    | inr (row, here) ↦ ap is_some (kept row here)
  ]

  pub item_at-presents :
      (items rows : List MigrationItem) (file_id : String)
      → any (λ (item : MigrationItem). str_eq item.file_id file_id) items ≡ true
      → has_item (insert_items job_id items rows) file_id ≡ true
  item_at-presents [] rows file_id h = cc
  item_at-presents (item ∷ items) rows file_id h = elim (Bool-cases (str_eq item.file_id file_id)) [
    | inl same ↦
        has_item-kept (insert_item job_id item rows)
          (insert_items job_id items (insert_item job_id item rows)) file_id
          (items_at-kept items (insert_item job_id item rows) file_id)
          (subst (λ f. has_item (insert_item job_id item rows) f ≡ true)
            ((eq_iff item.file_id file_id).0 same) (item_at-present item rows))
    | inr other ↦ item_at-presents items (insert_item job_id item rows) file_id (ground arith)
  ]

  -- Every checkpoint of the job stands where P says.
  abbrev pub AllCheckpoints : (String → Option String → Type 0) → List ScanCheckpoint → Type 0
  AllCheckpoints P =
      All (λ (row : ScanCheckpoint). (row.job_id == job_id) ≡ true → P row.folder_id row.page_token)

  upsert-AllCheckpoints :
      (P : String → Option String → Type 0) (checkpoint : ScanCheckpoint)
      (rows : List ScanCheckpoint)
      → AllCheckpoints P rows
      → P checkpoint.folder_id checkpoint.page_token
      → AllCheckpoints P (upsert_checkpoint job_id checkpoint rows)
  upsert-AllCheckpoints P checkpoint [] old new = (λ own. new, tt)
  upsert-AllCheckpoints P checkpoint (row ∷ rows) old new =
      placed (has_folder_id job_id checkpoint.folder_id row)
        (upsert-AllCheckpoints P checkpoint rows old.1 new) refl
    where
      placed :
          (same : Bool)
          → AllCheckpoints P (upsert_checkpoint job_id checkpoint rows)
          → has_folder_id job_id checkpoint.folder_id row ≡ same
          → AllCheckpoints P (
              if same
              then record row { page_token = checkpoint.page_token; depth = checkpoint.depth }
                ∷ rows
              else row ∷ upsert_checkpoint job_id checkpoint rows)
      placed true rest same = (
        λ own.
            subst (λ f. P f checkpoint.page_token)
              (ground (arith, same, eq_iff row.folder_id checkpoint.folder_id)) new,
        old.1,
      )
      placed false rest same = (old.0, rest)

  pub upserts-AllCheckpoints :
      (P : String → Option String → Type 0) (checkpoints rows : List ScanCheckpoint)
      → AllCheckpoints P rows
      → All
          (λ (checkpoint : ScanCheckpoint). P checkpoint.folder_id checkpoint.page_token)
          checkpoints
      → AllCheckpoints P (upsert_checkpoints job_id checkpoints rows)
  upserts-AllCheckpoints P [] rows old new = old
  upserts-AllCheckpoints P (checkpoint ∷ checkpoints) rows old new =
      upserts-AllCheckpoints P checkpoints (upsert_checkpoint job_id checkpoint rows)
        (upsert-AllCheckpoints P checkpoint rows old new.0) new.1

  pub token_at-kept :
      (checkpoints rows : List ScanCheckpoint) (folder_id : String)
      → is_some (token_at folder_id rows) ≡ true
      → is_some (token_at folder_id (upsert_checkpoints job_id checkpoints rows)) ≡ true
  token_at-kept [] rows folder_id h = h
  token_at-kept (checkpoint ∷ checkpoints) rows folder_id h =
      token_at-kept checkpoints (upsert_checkpoint job_id checkpoint rows) folder_id
        (ground (arith, token_at-upsert checkpoint folder_id rows))

  pub token_at-presents :
      (checkpoints rows : List ScanCheckpoint) (folder_id : String)
      → any (λ (checkpoint : ScanCheckpoint). str_eq checkpoint.folder_id folder_id) checkpoints
        ≡ true
      → is_some (token_at folder_id (upsert_checkpoints job_id checkpoints rows)) ≡ true
  token_at-presents [] rows folder_id h = cc
  token_at-presents (checkpoint ∷ checkpoints) rows folder_id h =
      elim (Bool-cases (str_eq checkpoint.folder_id folder_id)) [
        | inl same ↦
            token_at-kept checkpoints (upsert_checkpoint job_id checkpoint rows) folder_id
              (ground (arith, token_at-upsert checkpoint folder_id rows))
        | inr other ↦
            token_at-presents checkpoints (upsert_checkpoint job_id checkpoint rows) folder_id
              (ground arith)
      ]

  -- An update adds no checkpoint but its own.
  pub token_at-from :
      (checkpoints rows : List ScanCheckpoint) (folder_id : String)
      → is_some (token_at folder_id (upsert_checkpoints job_id checkpoints rows)) ≡ true
      → (is_some (token_at folder_id rows) ≡ true)
        ⊎ (any (λ (checkpoint : ScanCheckpoint). str_eq checkpoint.folder_id folder_id) checkpoints
            ≡ true)
  token_at-from [] rows folder_id h = inl h
  token_at-from (checkpoint ∷ checkpoints) rows folder_id h = ground (
    arith,
    token_at-from checkpoints (upsert_checkpoint job_id checkpoint rows) folder_id h,
    token_at-upsert checkpoint folder_id rows,
  )
