-- ===== src/Scan/Complete.antt =====
-- A whole scan, from what an earlier one left or from the roots.
use gdom.Base.{
  ℕ, ◌≡◌, refl, String, List, [], ◌∷◌, map, Bool, true, false, ◌&&◌, Option, arith, eq_iff, ◌==◌,
  all, filter, is_some, is_empty, subst, sym, ap, ◌∙◌, all-implies, if◌then◌else◌,
}
use gdom.Base.Rules.{Leads, bind_rule, return_rule, map_err_rule, if_rule, consequence}
use gdom.Job.Types.{MigrationRoot}
use gdom.Item.State.{MigrationItem, ScanCheckpoint}
use gdom.Store.Rows.{Tables, file_ids, list_committed_file_ids, list_scan_checkpoints}
use gdom.Store.Lookups.{has_item, token_at, has_item-kept, AllCheckpoints}
use gdom.Scan.Types.{ScanError, ScanRun, DriveChildPage, work_of}
use gdom.Scan.Roots.{contains}
use gdom.Scan.Run.{visited_ids, open_checkpoints, read_again, start_scan, run_scan}
use gdom.Scan.Progress.{KeepsRows, IsReached}
use gdom.Scan.Laws.{IsScanStore, IsQuiet}
use gdom.Scan.Commits.{IsGood}
use gdom.Scan.Batches.{Stopped}
use gdom.Scan.Cursor.{has_work, AreWorkable}
use gdom.Scan.Pages.{IsTracked, emit_scan_progress_rule}
use gdom.Scan.Waves.{IsScanned, scan_loop_rule}
use gdom.Scan.Seeds.{seed_roots_rule}

-- No earlier scan of the job left anything.
abbrev pub is_fresh : ℕ → Tables → Bool
is_fresh job_id tables =
    is_empty (list_scan_checkpoints job_id tables)
    && is_empty (list_committed_file_ids job_id tables)

abbrev pub have_items : ℕ → List MigrationRoot → Tables → Bool
have_items job_id roots tables =
    all (λ (root : MigrationRoot). has_item job_id tables.items root.root_file_id) roots

module _ (job_id : ℕ) (listing : String → Option String → DriveChildPage) where
  contains-file_ids :
      (f : String) (rows : List MigrationItem)
      → contains (file_ids job_id rows) f ≡ true
      → has_item job_id rows f ≡ true
  contains-file_ids f [] h = ground arith
  contains-file_ids f (row ∷ rows) h =
      ground (arith, contains-file_ids f rows, eq_iff row.file_id f, eq_iff f row.file_id)

  queued_rows :
      (f : String) (rows : List ScanCheckpoint)
      → is_some (token_at job_id f rows) ≡ true
      → has_work f (map work_of (filter (λ (row : ScanCheckpoint). row.job_id == job_id) rows))
        ≡ true
  unfolding work_of
  queued_rows f [] h = ground arith
  queued_rows f (row ∷ rows) h = ground (arith, queued_rows f rows)

  workable_rows :
      (items : List MigrationItem) (rows : List ScanCheckpoint)
      → AllCheckpoints job_id (IsReached job_id listing items) rows
      → AreWorkable job_id listing items
          (map work_of (filter (λ (row : ScanCheckpoint). row.job_id == job_id) rows))
  unfolding work_of
  workable_rows items [] h = tt
  workable_rows items (row ∷ rows) h =
      placed (row.job_id == job_id) h.0 (workable_rows items rows h.1)
    where
      placed :
          (own : Bool)
          → (own ≡ true → IsReached job_id listing items row.folder_id row.page_token)
          → AreWorkable job_id listing items
              (map work_of (filter (λ (r : ScanCheckpoint). r.job_id == job_id) rows))
          → AreWorkable job_id listing items (
              map work_of (
                if own
                then row ∷ filter (λ (r : ScanCheckpoint). r.job_id == job_id) rows
                else filter (λ (r : ScanCheckpoint). r.job_id == job_id) rows))
      placed true at_ rest = (at_ refl, rest)
      placed false at_ rest = rest

  -- The loop starts from what the tables say.
  read-IsTracked :
      (start tables : Tables)
      → IsGood job_id listing start tables
      → IsTracked job_id listing start tables
          (list_committed_file_ids job_id tables)
          (map work_of (list_scan_checkpoints job_id tables))
  unfolding list_committed_file_ids list_scan_checkpoints
  read-IsTracked start tables good = record {
    good = good;
    known = λ f seen. contains-file_ids f tables.items seen;
    queued = λ f here. queued_rows f tables.checkpoints here;
    workable = workable_rows tables.items tables.checkpoints good.sound.reached;
  }

  earlier :
      (start middle after : Tables)
      → KeepsRows job_id start.items middle.items
      → IsGood job_id listing middle after
      → IsGood job_id listing start after
  earlier start middle after kept good = record {
    sound = good.sound;
    kept = λ f row found. good.kept f row (kept f row found);
  }

  rows-IsTracked :
      (start tables : Tables) (ids : List String) (rows : List ScanCheckpoint)
      → IsGood job_id listing start tables
      → ids ≡ list_committed_file_ids job_id tables
      → rows ≡ list_scan_checkpoints job_id tables
      → IsTracked job_id listing start tables ids (map work_of rows)
  rows-IsTracked start tables ids rows good p q =
      subst (λ v. IsTracked job_id listing start tables v (map work_of rows)) (sym p)
        (subst
          (λ v.
            IsTracked job_id listing start tables (list_committed_file_ids job_id tables)
              (map work_of v))
          (sym q) (read-IsTracked start tables good))

module _ {W : Type 0} (run : ScanRun W) (view : W → Tables)
    (listing : String → Option String → DriveChildPage)
    (store : IsScanStore run.store_port run.job_id view) (quiet : IsQuiet run view listing) where
  module _ (start : Tables) where
    visited_ids_rule :
        (w : W)
        → IsGood run.job_id listing start (view w)
        → Leads (Stopped run view listing start) (visited_ids run) w (λ ids after.
          (view after ≡ view w) × (ids ≡ list_committed_file_ids run.job_id (view w)))
    unfolding visited_ids
    visited_ids_rule w good =
        map_err_rule ScanError.store (store.ids w) (λ e after failed.
          (subst (IsGood run.job_id listing start) (sym failed.0) good, failed.1))

    open_checkpoints_rule :
        (w : W)
        → IsGood run.job_id listing start (view w)
        → Leads (Stopped run view listing start) (open_checkpoints run) w (λ rows after.
          (view after ≡ view w) × (rows ≡ list_scan_checkpoints run.job_id (view w)))
    unfolding open_checkpoints
    open_checkpoints_rule w good =
        map_err_rule ScanError.store (store.checkpoints w) (λ e after failed.
          (subst (IsGood run.job_id listing start) (sym failed.0) good, failed.1))

    good_at :
        (w after : W)
        → IsGood run.job_id listing start (view w)
        → view after ≡ view w
        → IsGood run.job_id listing start (view after)
    good_at w after good same = subst (IsGood run.job_id listing start) (sym same) good

    -- What the loop starts from once the roots are there.
    reread :
        (w : W) {fresh : Type 0}
        → IsGood run.job_id listing start (view w)
        → have_items run.job_id run.roots (view w) ≡ true
        → Leads (Stopped run view listing start) (read_again run) w (λ state after.
          IsTracked run.job_id listing start (view after) state.visited state.queue
          × (fresh → have_items run.job_id run.roots (view after) ≡ true))
    unfolding read_again
    reread w good rooted = bind_rule (visited_ids_rule w good) (λ visited first p.
        bind_rule (open_checkpoints_rule first (good_at w first good p.0)) (λ checkpoints second q.
          bind_rule (emit_scan_progress_rule run view listing store quiet second) (λ _ last e.
            let same = e ∙ (q.0 ∙ p.0) in
            return_rule _ (
              subst
                  (λ tables.
                    IsTracked run.job_id listing start tables visited (map work_of checkpoints))
                  (sym same)
                  (rows-IsTracked run.job_id listing start (view w) visited checkpoints good p.1
                    (q.1 ∙ ap (list_scan_checkpoints run.job_id) p.0)),
              λ _.
                  subst (λ tables. have_items run.job_id run.roots tables ≡ true) (sym same) rooted,
            ))))

    pub start_scan_rule :
        (w : W)
        → IsGood run.job_id listing start (view w)
        → Leads (Stopped run view listing start) (start_scan run) w (λ state after.
          IsTracked run.job_id listing start (view after) state.visited state.queue
          × (is_fresh run.job_id (view w) ≡ true
              → have_items run.job_id run.roots (view after) ≡ true))
    unfolding start_scan
    start_scan_rule w good = bind_rule (visited_ids_rule w good) (λ visited first p.
        bind_rule (open_checkpoints_rule first (good_at w first good p.0)) (λ checkpoints second q.
          let good_now = good_at w second good (q.0 ∙ p.0) in
          let same_rows = q.1 ∙ ap (list_scan_checkpoints run.job_id) p.0 in
          if_rule (is_empty checkpoints && is_empty visited)
            (λ _.
              bind_rule (seed_roots_rule run view listing store quiet start second good_now)
                (λ _ seeded sown. reread seeded sown.0 sown.1))
            (λ found. return_rule _ (
              subst
                  (λ tables.
                    IsTracked run.job_id listing start tables visited (map work_of checkpoints))
                  (sym (q.0 ∙ p.0))
                  (rows-IsTracked run.job_id listing start (view w) visited checkpoints good p.1
                    same_rows),
              λ fresh. ground (arith, fresh, found, ap is_empty p.1, ap is_empty same_rows),
            ))))

  -- What holds after a scan that starts from tables of an earlier one.
  pub scan_from :
      (start : Tables) (waves : ℕ) (w : W)
      → IsGood run.job_id listing start (view w)
      → Leads (Stopped run view listing start) (run_scan run waves) w (λ outcome after.
        IsScanned run.job_id listing start (view after) outcome
        × (is_fresh run.job_id (view w) ≡ true
            → have_items run.job_id run.roots (view after) ≡ true))
  unfolding run_scan
  scan_from start waves w good = bind_rule (start_scan_rule start w good) (λ state started tracked.
      consequence
        (scan_loop_rule run view listing store quiet (view started) waves state started (record {
          good = record { sound = tracked.0.good.sound; kept = λ f row found. found };
          known = tracked.0.known;
          queued = tracked.0.queued;
          workable = tracked.0.workable;
        }))
        (λ e after stopped. (
          earlier run.job_id listing start (view started) (view after) tracked.0.good.kept
              stopped.0,
          stopped.1,
        ))
        (λ outcome after scanned. (
          record {
            good =
                earlier run.job_id listing start (view started) (view after) tracked.0.good.kept
                  scanned.good;
            closed = scanned.closed;
            empty = scanned.empty;
          },
          λ fresh.
              all-implies _ _ run.roots
                (λ root.
                  has_item-kept run.job_id (view started).items (view after).items root.root_file_id
                    (scanned.good.kept root.root_file_id))
                (tracked.1 fresh),
        )))
