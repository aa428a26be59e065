-- ===== src/Scan/Batches.antt =====
-- The loop over the batches of a page, from its first batch to its last.
use gdom.Base.{
  ℕ, zero, suc, ◌≡◌, refl, ◌≤◌, min, ◌+◌, ◌⊎◌, inl, inr, String, List, [], ◌∷◌, true, false, Option,
  str_eq, arith, take, drop, length, is_some, All-take, All-drop, any-take_add, take-capped,
  drop-capped, any-split, Bool-cases, ◌&&◌, length-take, length-drop, subst, sym, ap,
}
use gdom.Base.Rules.{Leads, bind_rule, return_rule, map_err_rule, weaken}
use gdom.Item.State.{MigrationItem, ScanCheckpoint}
use gdom.Store.Rows.{Tables, ItemBatchCommit, insert_scan_batch}
use gdom.Store.Lookups.{token_at, has_item-kept}
use gdom.Scan.Types.{ScanError, ScanRun, DriveChildPage}
use gdom.Scan.Roots.{commit, scan_checkpoint_batch_size}
use gdom.Scan.Page.{upsert_only, commit_items}
use gdom.Scan.Progress.{is_folder_row}
use gdom.Scan.Laws.{IsScanStore, is_too_large, is_oversized}
use gdom.Scan.Found.{has_checkpoint, AreFresh}
use gdom.Scan.Commits.{IsGood, AreAhead, IsCommitted, batch-IsCommitted, batch_opens}

module _ (job_id : ℕ) (listing : String → Option String → DriveChildPage) where
  -- What is ahead stays ahead.
  ahead_after :
      (rows rows' : List ScanCheckpoint) (items : List MigrationItem)
      (folders : List ScanCheckpoint) (n m : ℕ)
      → m ≡ min (length folders) n
      → AreAhead job_id listing rows items folders
      → ((f : String)
          → (is_some (token_at job_id f rows) ≡ true) ⊎ (has_checkpoint f (take m folders) ≡ true)
          → is_some (token_at job_id f rows') ≡ true)
      → AreAhead job_id listing rows' (drop n items) (drop m folders)
  ahead_after rows rows' items folders n m capped ahead upserted k f found = ground (
    arith,
    ahead (n + k) f,
    upserted f,
    any-take_add (λ (item : MigrationItem). is_folder_row item && str_eq item.file_id f) n k (n + k)
        items refl,
    any-take_add (λ (checkpoint : ScanCheckpoint). str_eq checkpoint.folder_id f) n k (n + k)
        folders refl,
    ap (has_checkpoint f) (take-capped m n folders capped),
    ap (λ rest. has_checkpoint f (take k rest)) (drop-capped m n folders capped),
  )

  -- Two stretches of the loop, one after the other.
  joined-IsCommitted :
      (start before middle after : Tables) (items : List MigrationItem)
      (folders rest : List ScanCheckpoint) (n m : ℕ)
      → IsCommitted job_id listing start before middle (take n items) (take m folders) []
      → IsCommitted job_id listing start middle after (drop n items) (drop m folders) rest
      → IsCommitted job_id listing start before after items folders rest
  joined-IsCommitted start before middle after items folders rest n m batch others = record {
    good = others.good;
    kept = λ f row found. others.kept f row (batch.kept f row found);
    stored = λ f found. ground (
      arith,
      any-split (λ (item : MigrationItem). str_eq item.file_id f) n items,
      batch.stored f,
      others.stored f,
      has_item-kept job_id middle.items after.items f (others.kept f),
    );
    tokens = λ f found. ground (
      arith,
      batch.tokens f,
      others.tokens f,
      any-split (λ (checkpoint : ScanCheckpoint). str_eq checkpoint.folder_id f) m folders,
    );
    fresh = others.fresh;
    left = λ f found. ground (
      arith,
      others.left f,
      any-split (λ (checkpoint : ScanCheckpoint). str_eq checkpoint.folder_id f) m folders,
    );
  }

  pub nothing-IsCommitted :
      (start tables : Tables) (folders : List ScanCheckpoint)
      → IsGood job_id listing start tables
      → AreFresh folders
      → IsCommitted job_id listing start tables tables [] folders folders
  nothing-IsCommitted start tables folders good fresh = record {
    good = good;
    kept = λ f row found. found;
    stored = λ f found. ground arith;
    tokens = λ f found. inl found;
    fresh = fresh;
    left = λ f found. found;
  }

module _ {W : Type 0} (run : ScanRun W) (view : W → Tables)
    (listing : String → Option String → DriveChildPage) (start : Tables) where
  -- Where a scan may stop with an error.
  abbrev pub Stopped : ScanError → W → Type 0
  Stopped e after = IsGood run.job_id listing start (view after) × (is_oversized e ≡ false)

  module _ (store : IsScanStore run.store_port run.job_id view) where
    pub commit_rule :
        (batch : ItemBatchCommit) (w : W)
        → length batch.items ≤ scan_checkpoint_batch_size
        → IsGood run.job_id listing start (view w)
        → Leads Stopped
            (commit run batch)
            w
            (λ _ after. view after ≡ insert_scan_batch run.job_id batch (view w))
    commit_rule batch w small good =
        map_err_rule ScanError.store (store.commits batch w) (λ e after failed. (
          subst (IsGood run.job_id listing start) (sym failed.0) good,
          elim (Bool-cases (is_too_large e)) [
            | inl large ↦ ground (arith, failed.1 large, small)
            | inr fits ↦ fits
          ],
        ))

    pub commit_items_rule :
        (left : ℕ) (items : List MigrationItem) (folders : List ScanCheckpoint) (w : W)
        → length items ≤ left
        → IsGood run.job_id listing start (view w)
        → AreFresh folders
        → AreAhead run.job_id listing (view w).checkpoints items folders
        → Leads Stopped (commit_items run left items folders) w (λ rest after.
          IsCommitted run.job_id listing start (view w) (view after) items folders rest)
    unfolding commit_items
    commit_items_rule zero [] folders w enough good fresh ahead =
        return_rule _ (nothing-IsCommitted run.job_id listing start (view w) folders good fresh)
    commit_items_rule zero (item ∷ items) folders w enough good fresh ahead = ground (arith, enough)
    commit_items_rule (suc left) [] folders w enough good fresh ahead =
        return_rule _ (nothing-IsCommitted run.job_id listing start (view w) folders good fresh)
    commit_items_rule (suc left) (item ∷ items) folders w enough good fresh ahead =
        let n = min (length (item ∷ items)) scan_checkpoint_batch_size in
        let m = min (length folders) n in
        bind_rule
          (commit_rule (upsert_only (take n (item ∷ items)) (take m folders)) w
            (omega (arith, length-take n (item ∷ items))) good)
          (λ _ middle done.
            let batch =
              batch-IsCommitted run.job_id listing start (view w) (take n (item ∷ items))
                (take m folders) good (All-take _ m folders fresh)
                (λ f found.
                  ground (
                    arith,
                    ahead n f found,
                    ap (has_checkpoint f) (take-capped m n folders refl),
                  )) in
            let first_batch =
              subst
                (λ tables.
                  IsCommitted run.job_id listing start (view w) tables (take n (item ∷ items))
                    (take m folders) [])
                (sym done) batch in
            weaken
              (commit_items_rule left (drop n (item ∷ items)) (drop m folders) middle
                (omega (arith, length-drop n (item ∷ items), enough)) first_batch.good
                (All-drop _ m folders fresh)
                (ahead_after run.job_id listing (view w).checkpoints (view middle).checkpoints
                  (item ∷ items) folders n m refl ahead
                  (batch_opens run.job_id listing (view w) (view middle) (take n (item ∷ items))
                    (take m folders) done)))
              (λ rest after others.
                joined-IsCommitted run.job_id listing start (view w) (view middle) (view after)
                  (item ∷ items) folders rest n m first_batch others))
