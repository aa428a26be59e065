-- ===== src/Scan/Progress.antt =====
-- What a scan has found of a Drive whose folders do not change, and what its tables promise to a
-- later run: `listing` is the page that `list_children` answers with.
use gdom.Base.{
  ℕ, ◌≡◌, ◌⊎◌, inl, inr, String, List, [], ◌∷◌, Bool, true, ◌&&◌, Option, none, some, arith, str_eq,
  eq_iff, all, All, is_some, subst, Bool-cases, All-map, All-filter,
}
use gdom.Item.State.{ItemState, MigrationItem, ScanCheckpoint, same_state}
use gdom.Drive.Types.{DriveChild, folder_mime_type}
use gdom.Store.Rows.{Tables, insert_scan_batch, insert_items, upsert_checkpoints}
use gdom.Store.Lookups.{
  item_at, has_item, token_at, has_item-kept, items_at-kept, item_at-inserts,
  upserts-AllCheckpoints, AllCheckpoints, token_at-kept, token_at-delete,
}
use gdom.Scan.Types.{DriveChildPage}
use gdom.Scan.Page.{upsert_only}

-- A row into whose children the scan goes.
abbrev pub is_folder_row : MigrationItem → Bool
is_folder_row row = same_state row.state ItemState.eligible && str_eq row.mime_type folder_mime_type

module _ (job_id : ℕ) where
  -- Every row that is found stays found, as it is.
  abbrev pub KeepsRows : List MigrationItem → List MigrationItem → Type 0
  KeepsRows rows rows' =
      (file_id : String) (row : MigrationItem)
      → item_at job_id file_id rows ≡ some row
      → item_at job_id file_id rows' ≡ some row

  abbrev pub are_stored : List DriveChild → List MigrationItem → Bool
  are_stored files rows = all (λ (child : DriveChild). has_item job_id rows child.id) files

  pub are_stored-KeepsRows :
      (files : List DriveChild) (rows rows' : List MigrationItem)
      → KeepsRows rows rows'
      → are_stored files rows ≡ true
      → are_stored files rows' ≡ true
  are_stored-KeepsRows [] rows rows' kept h = h
  are_stored-KeepsRows (child ∷ files) rows rows' kept h = ground (
    arith,
    are_stored-KeepsRows files rows rows' kept,
    has_item-kept job_id rows rows' child.id (kept child.id),
  )

  module _ (listing : String → Option String → DriveChildPage) where
    -- The files of all pages before this one are stored.
    pub data IsReached (rows : List MigrationItem) (folder_id : String)
        : Option String → Type 0 where
      first : IsReached rows folder_id none
      next_page :
          (token : Option String) (next : String)
          → IsReached rows folder_id token
          → are_stored (listing folder_id token).files rows ≡ true
          → (listing folder_id token).next_page_token ≡ some next
          → IsReached rows folder_id (some next)

    -- The files of all pages of the folder are stored.
    pub record IsListed (rows : List MigrationItem) (folder_id : String) : Type 0 where
      pub last : Option String
      pub reached : IsReached rows folder_id last
      pub stored : are_stored (listing folder_id last).files rows ≡ true
      pub ended : (listing folder_id last).next_page_token ≡ none

    -- What a stopped scan leaves to the next: a checkpoint stands no further than what is stored,
    -- and a folder without one is listed to its end.
    pub record IsResumable (tables : Tables) : Type 0 where
      pub reached : AllCheckpoints job_id (IsReached tables.items) tables.checkpoints
      pub covered :
          (folder_id : String) (row : MigrationItem)
          → item_at job_id folder_id tables.items ≡ some row
          → is_folder_row row ≡ true
          → (is_some (token_at job_id folder_id tables.checkpoints) ≡ true)
            ⊎ IsListed tables.items folder_id

    pub IsReached-KeepsRows :
        {rows rows' : List MigrationItem} (kept : KeepsRows rows rows') {folder_id : String}
        {token : Option String}
        → IsReached rows folder_id token
        → IsReached rows' folder_id token
    IsReached-KeepsRows kept first = first
    IsReached-KeepsRows {rows = rows} {rows' = rows'} kept {folder_id = folder_id}
          (next_page token next before stored more) =
        next_page token next (IsReached-KeepsRows kept before)
          (are_stored-KeepsRows (listing folder_id token).files rows rows' kept stored) more

    pub IsListed-KeepsRows :
        {rows rows' : List MigrationItem} (kept : KeepsRows rows rows') {folder_id : String}
        → IsListed rows folder_id
        → IsListed rows' folder_id
    IsListed-KeepsRows {rows = rows} {rows' = rows'} kept {folder_id = folder_id} listed = record {
      last = listed.last;
      reached = IsReached-KeepsRows kept listed.reached;
      stored =
          are_stored-KeepsRows (listing folder_id listed.last).files rows rows' kept listed.stored;
      ended = listed.ended;
    }

    abbrev pub AreReached : List MigrationItem → List ScanCheckpoint → Type 0
    AreReached rows =
        All (λ (checkpoint : ScanCheckpoint).
          IsReached rows checkpoint.folder_id checkpoint.page_token)

    -- Every folder among the items has a checkpoint among the rows.
    abbrev pub HaveTokens : List ScanCheckpoint → List MigrationItem → Type 0
    HaveTokens rows = All (λ (item : MigrationItem).
        is_folder_row item ≡ true → is_some (token_at job_id item.file_id rows) ≡ true)

    pub upsert_only-KeepsRows :
        (items : List MigrationItem) (checkpoints : List ScanCheckpoint) (tables : Tables)
        → KeepsRows tables.items
            (insert_scan_batch job_id (upsert_only items checkpoints) tables).items
    unfolding insert_scan_batch
    upsert_only-KeepsRows items checkpoints tables = items_at-kept job_id items tables.items

    -- A batch whose folders have their checkpoints keeps the promise.
    pub upsert_only-IsResumable :
        (items : List MigrationItem) (checkpoints : List ScanCheckpoint) (tables : Tables)
        → IsResumable tables
        → AreReached (insert_items job_id items tables.items) checkpoints
        → HaveTokens (upsert_checkpoints job_id checkpoints tables.checkpoints) items
        → IsResumable (insert_scan_batch job_id (upsert_only items checkpoints) tables)
    unfolding insert_scan_batch
    upsert_only-IsResumable items checkpoints tables sound reached tokens = record {
      reached =
          upserts-AllCheckpoints job_id (IsReached (insert_items job_id items tables.items))
            checkpoints tables.checkpoints
            (All-map _ _ tables.checkpoints
              (λ row at_ own.
                IsReached-KeepsRows (items_at-kept job_id items tables.items) (at_ own))
              sound.reached)
            reached;
      covered =
          item_at-inserts job_id
            (λ folder_id row.
              is_folder_row row ≡ true
              → (is_some (
                    token_at job_id folder_id
                      (upsert_checkpoints job_id checkpoints tables.checkpoints))
                  ≡ true)
                ⊎ IsListed (insert_items job_id items tables.items) folder_id)
            items tables.items
            (λ folder_id row found is_folder. elim (sound.covered folder_id row found is_folder) [
              | inl kept ↦ inl (token_at-kept job_id checkpoints tables.checkpoints folder_id kept)
              | inr listed ↦
                  inr (IsListed-KeepsRows (items_at-kept job_id items tables.items) listed)
            ])
            (All-map _ _ items (λ item has is_folder. inl (has is_folder)) tokens);
    }

    -- So does the end of a folder that is listed.
    pub delete-IsResumable :
        (folder_id : String) (tables : Tables)
        → IsResumable tables
        → IsListed tables.items folder_id
        → IsResumable (
            insert_scan_batch job_id
              (record { items = []; checkpoints_upsert = []; checkpoints_delete = folder_id ∷ [] })
              tables)
    unfolding insert_scan_batch
    delete-IsResumable folder_id tables sound listed = record {
      reached = All-filter _ _ tables.checkpoints sound.reached;
      covered = λ other row found is_folder. elim (Bool-cases (str_eq folder_id other)) [
        | inl same ↦ inr (subst (IsListed tables.items) ((eq_iff folder_id other).0 same) listed)
        | inr distinct ↦ elim (sound.covered other row found is_folder) [
          | inl kept ↦
              inl (ground (arith, token_at-delete job_id folder_id other tables.checkpoints))
          | inr done ↦ inr done
        ]
      ];
    }
