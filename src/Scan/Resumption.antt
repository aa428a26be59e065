-- ===== src/Scan/Resumption.antt =====
-- A scan that was stopped can be resumed, the roots included.
use gdom.Base.{ℕ, ◌≡◌, ◌≤◌, inr, String, List, [], ◌∷◌, true, Option, some, Result, ok, err, length}
use gdom.Base.Rules.{Comes}
use gdom.Store.Rows.{Tables}
use gdom.Scan.Types.{ScanError, ScanOutcome, completed, ScanRun, DriveChildPage}
use gdom.Scan.Roots.{scan_checkpoint_batch_size}
use gdom.Scan.Run.{run_scan}
use gdom.Scan.Progress.{KeepsRows}
use gdom.Scan.Laws.{IsScanStore, IsQuiet}
use gdom.Scan.Complete.{have_items}
use gdom.Scan.Safety.{IsComplete, Fits, run_scan-IsResumable, run_scan-IsComplete, rerun}
use gdom.Scan.Seeded.{IsSeeded, CanResume, run_scan-Seeded}

module _ {W : Type 0} (run : ScanRun W) (view : W → Tables)
    (listing : String → Option String → DriveChildPage)
    (store : IsScanStore run.store_port run.job_id view) (quiet : IsQuiet run view listing) where
  either_end :
      (r : Result ScanError (Option ScanOutcome)) (after : W)
      → Comes
          (λ _ after. IsSeeded run.job_id run.roots (view after))
          (λ _ after. (have_items run.job_id run.roots (view after) ≡ true))
          r
          after
      → IsSeeded run.job_id run.roots (view after)
  either_end (ok outcome) after rooted = inr rooted
  either_end (err e) after seeded = seeded

  -- Over a store with atomic commits and a Drive whose folders do not change, with at most 100 roots,
  -- from tables that can be resumed: however a scan ends, by an error of Drive or of the store at any
  -- call, by a pause or after any number of waves, what it leaves can be resumed - either the job has
  -- no row and no checkpoint yet, so that the next run stores the roots, or every root is stored; and
  -- every stored folder still has a checkpoint or is listed to its end - no stored row is lost or
  -- changed, and no batch was too large for the store.
  pub run_scan-CanResume :
      (waves : ℕ) (w : W)
      → length run.roots ≤ scan_checkpoint_batch_size
      → CanResume run.job_id run.roots listing (view w)
      → CanResume run.job_id run.roots listing (view (run_scan run waves w).1)
        × (KeepsRows run.job_id (view w).items (view (run_scan run waves w).1).items
            × Fits (run_scan run waves w).0)
  run_scan-CanResume waves w few can =
      let ended = run_scan-IsResumable run view listing store quiet waves w can.sound in
      (
        record {
          sound = ended.0;
          seeded =
              either_end _ _ (run_scan-Seeded run view listing store quiet waves w few can).comes;
        },
        ended.1,
      )

  rerun-CanResume :
      (earlier : List ℕ) (w : W)
      → length run.roots ≤ scan_checkpoint_batch_size
      → CanResume run.job_id run.roots listing (view w)
      → CanResume run.job_id run.roots listing (view (rerun run view listing store quiet earlier w))
  rerun-CanResume [] w few can = can
  rerun-CanResume (waves ∷ others) w few can =
      rerun-CanResume others (run_scan run waves w).1 few (run_scan-CanResume waves w few can).0

  completed_end :
      (r : Result ScanError (Option ScanOutcome)) (after : W)
      → r ≡ ok (some completed)
      → Comes
          (λ _ after. IsSeeded run.job_id run.roots (view after))
          (λ _ after. (have_items run.job_id run.roots (view after) ≡ true))
          r
          after
      → have_items run.job_id run.roots (view after) ≡ true
  completed_end (ok outcome) after is_done rooted = rooted
  completed_end (err e) after is_done seeded = cc

  -- Over a store with atomic commits and a Drive whose folders do not change, with at most 100 roots,
  -- from tables that can be resumed: after any number of runs, each ended in whatever way, a run that
  -- completes has every root stored, every stored folder listed to its end with all its files, and no
  -- checkpoint left.
  pub rerun-IsComplete :
      (earlier : List ℕ) (waves : ℕ) (w : W)
      → length run.roots ≤ scan_checkpoint_batch_size
      → CanResume run.job_id run.roots listing (view w)
      → let before = rerun run view listing store quiet earlier w in
        (run_scan run waves before).0 ≡ ok (some completed)
        → IsComplete run.job_id listing (view (run_scan run waves before).1)
          × (have_items run.job_id run.roots (view (run_scan run waves before).1) ≡ true)
  rerun-IsComplete earlier waves w few can is_done =
      let before = rerun run view listing store quiet earlier w in
      let can_now = rerun-CanResume earlier w few can in
      (
        run_scan-IsComplete run view listing store quiet waves before can_now.sound is_done,
        completed_end _ _ is_done
            (run_scan-Seeded run view listing store quiet waves before few can_now).comes,
      )
