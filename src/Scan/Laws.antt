-- ===== src/Scan/Laws.antt =====
-- What a scan relies on: a store whose commits are atomic, and a Drive, a clock and a source of ids
-- that leave its tables alone. `view` is what the tables hold in a world.
use gdom.Base.{ℕ, ◌≡◌, ◌<◌, String, List, Bool, true, false, Option, some, length}
use gdom.Base.Rules.{Leads}
use gdom.Transfer.Types.{ItemStoreError, JobRuntimeEvent}
use gdom.Store.Rows.{
  Tables, ItemBatchCommit, insert_scan_batch, list_committed_file_ids, list_scan_checkpoints,
}
use gdom.Scan.Types.{ScanError, ScanRun, ScanStorePort, WorkItem, DriveChildPage}
use gdom.Scan.Roots.{scan_checkpoint_batch_size}
use gdom.Base.Reorder.{IsReordered}

abbrev pub is_too_large : ItemStoreError → Bool
is_too_large (ItemStoreError.batch_too_large _ _) = true
is_too_large _ = false

abbrev pub is_oversized : ScanError → Bool
is_oversized (ScanError.store e) = is_too_large e
is_oversized _ = false

-- A commit is done or undone as a whole, and only a batch above the limit is refused as too large.
pub record IsScanStore {W : Type 0} (port : ScanStorePort W) (job_id : ℕ) (view : W → Tables)
    : Type 0 where
  pub commits :
      (batch : ItemBatchCommit) (w : W)
      → Leads
          (λ e after.
            (view after ≡ view w)
            × (is_too_large e ≡ true → scan_checkpoint_batch_size < length batch.items))
          (port.commit_scan_batch job_id batch)
          w
          (λ _ after. view after ≡ insert_scan_batch job_id batch (view w))
  pub ids :
      (w : W)
      → Leads
          (λ e after. (view after ≡ view w) × (is_too_large e ≡ false))
          (port.list_committed_file_ids job_id)
          w
          (λ file_ids after.
            (view after ≡ view w) × (file_ids ≡ list_committed_file_ids job_id (view w)))
  pub checkpoints :
      (w : W)
      → Leads
          (λ e after. (view after ≡ view w) × (is_too_large e ≡ false))
          (port.list_scan_checkpoints job_id)
          w
          (λ rows after. (view after ≡ view w) × (rows ≡ list_scan_checkpoints job_id (view w)))
  pub aggregates :
      (w : W)
      → Leads
          (λ _ after. view after ≡ view w)
          (port.item_aggregates job_id)
          w
          (λ _ after. view after ≡ view w)

-- Drive answers with the pages of `listing`, or fails; the tasks of a wave end in some order.
pub record IsQuiet {W : Type 0} (run : ScanRun W) (view : W → Tables)
    (listing : String → Option String → DriveChildPage) : Type 0 where
  pub get_file :
      (id : String) (w : W)
      → Leads
          (λ _ after. view after ≡ view w)
          (run.drive_port.get_file run.source_token id)
          w
          (λ _ after. view after ≡ view w)
  pub pages :
      (folder_id : String) (token : Option String) (w : W)
      → Leads
          (λ _ after. view after ≡ view w)
          (run.drive_port.list_children run.source_token folder_id token)
          w
          (λ page after. (view after ≡ view w) × (page ≡ listing folder_id token))
  pub next_entity_id : (w : W) → view (run.next_entity_id w).1 ≡ view w
  pub clock : (w : W) → view (run.clock w).1 ≡ view w
  pub emit :
      (sink : JobRuntimeEvent → W → W) (event : JobRuntimeEvent) (w : W)
      → run.events ≡ some sink
      → view (sink event w) ≡ view w
  pub join_order : (w : W) (wave : List WorkItem) → IsReordered wave (run.join_order w wave)
