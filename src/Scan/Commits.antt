-- ===== src/Scan/Commits.antt =====
-- The commits of a page: the batches of its items and their folders, and its own checkpoint.
use gdom.Base.{
  ℕ, ◌≡◌, ◌⊎◌, inl, inr, String, List, [], ◌∷◌, true, Option, arith, eq_iff, All, take, is_some,
  All-map, subst, sym,
}
use gdom.Item.State.{MigrationItem, ScanCheckpoint}
use gdom.Store.Rows.{Tables, insert_scan_batch, insert_items, upsert_checkpoints}
use gdom.Store.Lookups.{
  token_at, has_item, item_at-presents, token_at-kept, token_at-presents, token_at-from,
}
use gdom.Scan.Types.{DriveChildPage}
use gdom.Scan.Page.{upsert_only}
use gdom.Scan.Progress.{
  KeepsRows, IsReached, first, IsResumable, is_folder_row, upsert_only-KeepsRows,
  upsert_only-IsResumable,
}
use gdom.Scan.Found.{has_file, has_folder, has_checkpoint, AreFresh}

module _ (job_id : ℕ) (listing : String → Option String → DriveChildPage) where
  -- What holds of the tables all the while.
  pub record IsGood (start tables : Tables) : Type 0 where
    pub sound : IsResumable job_id listing tables
    pub kept : KeepsRows job_id start.items tables.items

  -- Of the first items, however many, every folder has its checkpoint in the table or among as many
  -- first checkpoints.
  abbrev pub AreAhead : List ScanCheckpoint → List MigrationItem → List ScanCheckpoint → Type 0
  AreAhead rows items folders =
      (n : ℕ) (f : String)
      → has_folder f (take n items) ≡ true
      → (is_some (token_at job_id f rows) ≡ true) ⊎ (has_checkpoint f (take n folders) ≡ true)

  -- What the commits of items and folders leave.
  pub record IsCommitted (start before after : Tables) (items : List MigrationItem)
      (folders rest : List ScanCheckpoint) : Type 0 where
    pub good : IsGood start after
    pub kept : KeepsRows job_id before.items after.items
    pub stored : (f : String) → has_file f items ≡ true → has_item job_id after.items f ≡ true
    pub tokens :
        (f : String)
        → is_some (token_at job_id f after.checkpoints) ≡ true
        → (is_some (token_at job_id f before.checkpoints) ≡ true)
          ⊎ (has_checkpoint f folders ≡ true)
    pub fresh : AreFresh rest
    pub left : (f : String) → has_checkpoint f rest ≡ true → has_checkpoint f folders ≡ true

  folders-All :
      (P : String → Type 0) (items : List MigrationItem)
      → ((f : String) → has_folder f items ≡ true → P f)
      → All (λ (item : MigrationItem). is_folder_row item ≡ true → P item.file_id) items
  folders-All P [] h = tt
  folders-All P (item ∷ items) h = (
    λ is_folder. h item.file_id (ground (arith, is_folder, eq_iff item.file_id item.file_id)),
    folders-All P items (λ f found. h f (ground arith)),
  )

  -- A batch of items with their folders keeps the promise.
  pub batch-IsGood :
      (start tables : Tables) (items : List MigrationItem) (folders : List ScanCheckpoint)
      → IsGood start tables
      → AreFresh folders
      → ((f : String)
          → has_folder f items ≡ true
          → (is_some (token_at job_id f tables.checkpoints) ≡ true)
            ⊎ (has_checkpoint f folders ≡ true))
      → IsGood start (insert_scan_batch job_id (upsert_only items folders) tables)
  batch-IsGood start tables items folders good fresh open_ = record {
    sound =
        upsert_only-IsResumable job_id listing items folders tables good.sound
          (All-map _ _ folders
            (λ (checkpoint : ScanCheckpoint) unread.
              subst
                (IsReached job_id listing (insert_items job_id items tables.items)
                  checkpoint.folder_id)
                (sym unread) first)
            fresh)
          (folders-All
            (λ f.
              is_some (token_at job_id f (upsert_checkpoints job_id folders tables.checkpoints))
              ≡ true)
            items
            (λ f found. elim (open_ f found) [
              | inl here ↦ token_at-kept job_id folders tables.checkpoints f here
              | inr new ↦ token_at-presents job_id folders tables.checkpoints f new
            ]));
    kept = λ f row found.
        upsert_only-KeepsRows job_id listing items folders tables f row (good.kept f row found);
  }

  pub batch-IsCommitted :
      (start tables : Tables) (items : List MigrationItem) (folders : List ScanCheckpoint)
      → IsGood start tables
      → AreFresh folders
      → ((f : String)
          → has_folder f items ≡ true
          → (is_some (token_at job_id f tables.checkpoints) ≡ true)
            ⊎ (has_checkpoint f folders ≡ true))
      → IsCommitted start tables
          (insert_scan_batch job_id (upsert_only items folders) tables)
          items
          folders
          []
  unfolding insert_scan_batch
  batch-IsCommitted start tables items folders good fresh open_ = record {
    good = batch-IsGood start tables items folders good fresh open_;
    kept = upsert_only-KeepsRows job_id listing items folders tables;
    stored = item_at-presents job_id items tables.items;
    tokens = token_at-from job_id folders tables.checkpoints;
    fresh = tt;
    left = λ f h. ground arith;
  }

  -- A batch leaves a checkpoint where there was one and where it brings one.
  pub batch_opens :
      (tables tables' : Tables) (items : List MigrationItem) (folders : List ScanCheckpoint)
      → tables' ≡ insert_scan_batch job_id (upsert_only items folders) tables
      → (f : String)
      → (is_some (token_at job_id f tables.checkpoints) ≡ true) ⊎ (has_checkpoint f folders ≡ true)
      → is_some (token_at job_id f tables'.checkpoints) ≡ true
  unfolding insert_scan_batch
  batch_opens tables tables' items folders done f given =
      subst (λ (t : Tables). is_some (token_at job_id f t.checkpoints) ≡ true) (sym done)
        (elim given [
          | inl here ↦ token_at-kept job_id folders tables.checkpoints f here
          | inr new ↦ token_at-presents job_id folders tables.checkpoints f new
        ])
