-- ===== src/Scan/Cursor.antt =====
-- The last commit of a page: the next page of the folder, or the end of its checkpoint.
use gdom.Base.{
  ℕ, ◌≡◌, refl, ◌⊎◌, ℤ, String, List, [], ◌∷◌, ◌++◌, Bool, true, false, Option, none, some, arith,
  str_eq, any, All, is_some, subst, sym, any-append, All-append,
}
use gdom.Base.Rules.{Leads, bind_rule, return_rule}
use gdom.Item.State.{MigrationItem, ScanCheckpoint}
use gdom.Store.Rows.{Tables, insert_scan_batch}
use gdom.Store.Lookups.{token_at, token_at-upsert, token_at-delete}
use gdom.Scan.Types.{ScanRun, WorkItem, DriveChildPage}
use gdom.Scan.Page.{upsert_only, commit_cursor, commit_folders}
use gdom.Scan.Progress.{
  KeepsRows, IsReached, IsListed, next_page, are_stored, upsert_only-IsResumable,
  delete-IsResumable,
}
use gdom.Scan.Laws.{IsScanStore}
use gdom.Scan.Found.{AreFresh}
use gdom.Scan.Commits.{IsGood, IsCommitted, batch-IsCommitted}
use gdom.Scan.Batches.{Stopped, commit_rule, nothing-IsCommitted}

abbrev pub has_work : String → List WorkItem → Bool
has_work folder_id = any (λ (work : WorkItem). str_eq work.folder_id folder_id)

module _ (job_id : ℕ) (listing : String → Option String → DriveChildPage) where
  abbrev pub AreWorkable : List MigrationItem → List WorkItem → Type 0
  AreWorkable rows =
      All (λ (work : WorkItem). IsReached job_id listing rows work.folder_id work.page_token)

  -- The checkpoint of the page's folder is gone, or the queue has the folder again.
  pub record IsTurned (start before after : Tables) (folder_id : String)
      (queue queue' : List WorkItem) : Type 0 where
    pub good : IsGood job_id listing start after
    pub kept : KeepsRows job_id before.items after.items
    pub queued :
        (f : String)
        → is_some (token_at job_id f after.checkpoints) ≡ true
        → ((is_some (token_at job_id f before.checkpoints) ≡ true) × (str_eq folder_id f ≡ false))
          ⊎ (has_work f queue' ≡ true)
    pub grows : (f : String) → has_work f queue ≡ true → has_work f queue' ≡ true
    pub workable : AreWorkable after.items queue → AreWorkable after.items queue'

  pub ended-IsTurned :
      (start tables : Tables) (folder_id : String) (queue : List WorkItem)
      → IsGood job_id listing start tables
      → IsListed job_id listing tables.items folder_id
      → IsTurned start tables
          (insert_scan_batch job_id
            (record { items = []; checkpoints_upsert = []; checkpoints_delete = folder_id ∷ [] })
            tables)
          folder_id
          queue
          queue
  unfolding insert_scan_batch
  ended-IsTurned start tables folder_id queue good listed = record {
    good = record {
      sound = delete-IsResumable job_id listing folder_id tables good.sound listed;
      kept = good.kept;
    };
    kept = λ f row found. found;
    queued = λ f found. ground (arith, token_at-delete job_id folder_id f tables.checkpoints);
    grows = λ f found. found;
    workable = λ works. works;
  }

  pub next-IsTurned :
      (start tables : Tables) (checkpoint : ScanCheckpoint) (work : WorkItem)
      (queue : List WorkItem)
      → IsGood job_id listing start tables
      → IsReached job_id listing tables.items checkpoint.folder_id checkpoint.page_token
      → work.folder_id ≡ checkpoint.folder_id
      → IsReached job_id listing tables.items work.folder_id work.page_token
      → IsTurned start tables
          (insert_scan_batch job_id (upsert_only [] (checkpoint ∷ [])) tables)
          checkpoint.folder_id
          queue
          (queue ++ work ∷ [])
  unfolding insert_scan_batch
  next-IsTurned start tables checkpoint work queue good reached same workable = record {
    good = record {
      sound =
          upsert_only-IsResumable job_id listing [] (checkpoint ∷ []) tables good.sound
            (reached, tt) tt;
      kept = good.kept;
    };
    kept = λ f row found. found;
    queued = λ f found. ground (
      arith,
      token_at-upsert job_id checkpoint f tables.checkpoints,
      any-append (λ (w : WorkItem). str_eq w.folder_id f) queue (work ∷ []),
      same,
    );
    grows = λ f found.
        ground (arith, any-append (λ (w : WorkItem). str_eq w.folder_id f) queue (work ∷ []));
    workable = λ works. All-append _ queue (work ∷ []) works (workable, tt);
  }

module _ {W : Type 0} (run : ScanRun W) (view : W → Tables)
    (listing : String → Option String → DriveChildPage) (start : Tables)
    (store : IsScanStore run.store_port run.job_id view) where
  pub commit_folders_rule :
      (folders : List ScanCheckpoint) (w : W)
      → IsGood run.job_id listing start (view w)
      → AreFresh folders
      → Leads
          (Stopped run view listing start)
          (commit_folders run folders)
          w
          (λ _ after. IsCommitted run.job_id listing start (view w) (view after) [] folders [])
  unfolding commit_folders
  commit_folders_rule [] w good fresh =
      return_rule _ (nothing-IsCommitted run.job_id listing start (view w) [] good fresh)
  commit_folders_rule (folder ∷ folders) w good fresh =
      bind_rule
        (commit_rule run view listing start store (upsert_only [] (folder ∷ folders)) w
          (omega arith) good)
        (λ _ after done. return_rule _ (
          subst
            (λ tables.
              IsCommitted run.job_id listing start (view w) tables [] (folder ∷ folders) [])
            (sym done)
            (batch-IsCommitted run.job_id listing start (view w) [] (folder ∷ folders) good fresh
              (λ f found. ground arith))))

  pub commit_cursor_rule :
      (folder_id : String) (depth : ℤ) (token next : Option String) (queue : List WorkItem) (w : W)
      → IsGood run.job_id listing start (view w)
      → IsReached run.job_id listing (view w).items folder_id token
      → are_stored run.job_id (listing folder_id token).files (view w).items ≡ true
      → (listing folder_id token).next_page_token ≡ next
      → Leads
          (Stopped run view listing start)
          (commit_cursor run folder_id depth next queue)
          w
          (λ queue' after.
            IsTurned run.job_id listing start (view w) (view after) folder_id queue queue')
  unfolding commit_cursor
  commit_cursor_rule folder_id depth token none queue w good reached stored ended =
      bind_rule (commit_rule run view listing start store _ w (omega arith) good) (λ _ after done.
        return_rule _ (
          subst (λ tables. IsTurned run.job_id listing start (view w) tables folder_id queue queue)
            (sym done)
            (ended-IsTurned run.job_id listing start (view w) folder_id queue good
              (record { last = token; reached = reached; stored = stored; ended = ended }))))
  commit_cursor_rule folder_id depth token (some next) queue w good reached stored more =
      bind_rule (commit_rule run view listing start store _ w (omega arith) good) (λ _ after done.
        return_rule _ (
          subst
            (λ tables. IsTurned run.job_id listing start (view w) tables folder_id queue (
              queue
              ++ record { folder_id = folder_id; page_token = some next; depth = depth } ∷ []))
            (sym done)
            (next-IsTurned run.job_id listing start (view w) _ _ queue good
              (next_page token next reached stored more) refl
              (next_page token next reached stored more))))
