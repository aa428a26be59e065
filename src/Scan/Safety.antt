-- ===== src/Scan/Safety.antt =====
-- What a scan promises, however it ends, and what it has done when it completes.
use gdom.Base.{
  ℕ, ◌≡◌, refl, String, List, [], ◌∷◌, true, false, Option, some, Result, ok, err, is_some,
}
use gdom.Base.Rules.{Comes}
use gdom.Item.State.{MigrationItem}
use gdom.Store.Rows.{Tables}
use gdom.Store.Lookups.{item_at, token_at}
use gdom.Scan.Types.{ScanError, ScanOutcome, completed, ScanRun, DriveChildPage}
use gdom.Scan.Run.{run_scan}
use gdom.Scan.Progress.{KeepsRows, IsListed, IsResumable, is_folder_row}
use gdom.Scan.Laws.{IsScanStore, IsQuiet, is_oversized}
use gdom.Scan.Waves.{IsScanned}
use gdom.Scan.Batches.{Stopped}
use gdom.Scan.Commits.{IsGood}
use gdom.Scan.Complete.{is_fresh, have_items, scan_from}

-- Every folder that is stored is listed to its end, and no checkpoint is left.
pub record IsComplete (job_id : ℕ) (listing : String → Option String → DriveChildPage)
    (tables : Tables) : Type 0 where
  pub closed :
      (folder_id : String) (row : MigrationItem)
      → item_at job_id folder_id tables.items ≡ some row
      → is_folder_row row ≡ true
      → IsListed job_id listing tables.items folder_id
  pub empty : (folder_id : String) → is_some (token_at job_id folder_id tables.checkpoints) ≡ false

-- No error is a batch above the store's limit.
abbrev pub Fits : {A : Type 0} → Result ScanError A → Type 0
Fits (ok a) = Unit
Fits (err e) = is_oversized e ≡ false

module _ {W : Type 0} (run : ScanRun W) (view : W → Tables)
    (listing : String → Option String → DriveChildPage)
    (store : IsScanStore run.store_port run.job_id view) (quiet : IsQuiet run view listing) where
  pub fresh_good :
      (w : W)
      → IsResumable run.job_id listing (view w)
      → IsGood run.job_id listing (view w) (view w)
  fresh_good w sound = record { sound = sound; kept = λ f row found. found }

  either_way :
      (w : W) (fresh : Type 0) (rooted : W → Type 0) (r : Result ScanError (Option ScanOutcome))
      (after : W)
      → Comes
          (Stopped run view listing (view w))
          (λ outcome after.
            IsScanned run.job_id listing (view w) (view after) outcome × (fresh → rooted after))
          r
          after
      → IsGood run.job_id listing (view w) (view after) × Fits r
  either_way w fresh rooted (ok outcome) after ended = (ended.0.good, tt)
  either_way w fresh rooted (err e) after ended = ended

  -- Over a store with atomic commits and a Drive whose folders do not change, from tables that can be
  -- resumed: however a scan ends, by an error of Drive or of the store at any call, by a pause or after
  -- any number of waves, what it leaves can be resumed, no stored row is lost or changed, and no batch
  -- was too large for the store.
  pub run_scan-IsResumable :
      (waves : ℕ) (w : W)
      → IsResumable run.job_id listing (view w)
      → IsResumable run.job_id listing (view (run_scan run waves w).1)
        × (KeepsRows run.job_id (view w).items (view (run_scan run waves w).1).items
            × Fits (run_scan run waves w).0)
  run_scan-IsResumable waves w sound =
      let ended =
        either_way w _ _ (run_scan run waves w).0 (run_scan run waves w).1
          (scan_from run view listing store quiet (view w) waves w (fresh_good w sound)).comes in
      (ended.0.sound, (ended.0.kept, ended.1))

  completed_way :
      (w : W) (fresh : Type 0) (rooted : W → Type 0) (r : Result ScanError (Option ScanOutcome))
      (after : W)
      → r ≡ ok (some completed)
      → Comes
          (Stopped run view listing (view w))
          (λ outcome after.
            IsScanned run.job_id listing (view w) (view after) outcome × (fresh → rooted after))
          r
          after
      → IsComplete run.job_id listing (view after) × (fresh → rooted after)
  completed_way w fresh rooted (ok (some completed)) after is_done ended =
      (record { closed = ended.0.closed refl; empty = ended.0.empty refl }, ended.1)
  completed_way w fresh rooted _ after is_done ended = cc

  both :
      (waves : ℕ) (w : W)
      → IsResumable run.job_id listing (view w)
      → (run_scan run waves w).0 ≡ ok (some completed)
      → IsComplete run.job_id listing (view (run_scan run waves w).1)
        × (is_fresh run.job_id (view w) ≡ true
            → have_items run.job_id run.roots (view (run_scan run waves w).1) ≡ true)
  both waves w sound is_done =
      completed_way w _ _ (run_scan run waves w).0 (run_scan run waves w).1 is_done
        (scan_from run view listing store quiet (view w) waves w (fresh_good w sound)).comes

  -- Over a store with atomic commits and a Drive whose folders do not change, a scan that starts from
  -- tables that can be resumed and completes has listed every stored folder to its end, with all its
  -- files stored, and has left no checkpoint.
  pub run_scan-IsComplete :
      (waves : ℕ) (w : W)
      → IsResumable run.job_id listing (view w)
      → (run_scan run waves w).0 ≡ ok (some completed)
      → IsComplete run.job_id listing (view (run_scan run waves w).1)
  run_scan-IsComplete waves w sound is_done = (both waves w sound is_done).0

  -- Over a store with atomic commits and a Drive whose folders do not change, a scan that starts from
  -- tables that can be resumed, finds no row and no checkpoint of its job and completes has stored
  -- every root.
  pub run_scan-have_items :
      (waves : ℕ) (w : W)
      → IsResumable run.job_id listing (view w)
      → is_fresh run.job_id (view w) ≡ true
      → (run_scan run waves w).0 ≡ ok (some completed)
      → have_items run.job_id run.roots (view (run_scan run waves w).1) ≡ true
  run_scan-have_items waves w sound fresh is_done = (both waves w sound is_done).1 fresh

  -- Runs of a scan, one after the other, each for so many waves at most.
  abbrev pub rerun : List ℕ → W → W
  rerun [] w = w
  rerun (waves ∷ others) w = rerun others (run_scan run waves w).1
