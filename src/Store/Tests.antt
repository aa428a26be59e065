-- ===== src/Store/Tests.antt =====
-- The store on a few rows.
use gdom.Base.{ℕ, ◌≡◌, ◌≤◌, ◌+◌, refl, String, List, [], ◌∷◌, false, none, pos}
use gdom.Item.State.{ItemState, MigrationItem, ScanCheckpoint}
use gdom.Drive.Types.{shortcut_mime_type}
use gdom.Store.Aggregates.{item_aggregates, item_aggregates_add_up, count_in_state}
use gdom.Store.Rows.{ItemBatchCommit, Tables}
use gdom.Store.Sqlite.{
  commit_scan_batch, execute_batch, execute_items, execute_upserts, execute_deletes,
  end_transaction,
}
use gdom.Store.Batch.{IsBatchStored, commit_scan_batch-IsAllOrNothing}
use gdom.Base.State.{return, throw, handle, settle, ◌>>=◌}
use gdom.Base.{filter, any, length, ok, ◌&&◌}
use gdom.Base.Reorder.{IsReordered, exchange, unchanged}
use gdom.Item.State.{is_transfer_active, is_unstarted_for_cancel}
use gdom.Store.Aggregates.{own}
use gdom.Store.Order.{
  list_items_for_transfer, sort_rows, insert_row, row_le, name_le, awaits_transfer, passes,
  list_items_page,
}
use gdom.Store.Lists.{list_items_for_transfer-IsReordered, AreDeepestFirst}
use gdom.Store.Changes.{Ledger, cancel_unstarted_items, is_cancellable}
use gdom.Store.Sweeps.{AreSwept, cancel_unstarted_items-AreSwept}

abbrev row : String → String → ItemState → MigrationItem
row file_id mime_type state = record {
  id = 1;
  job_id = 1;
  file_id = file_id;
  name = file_id;
  mime_type = mime_type;
  depth = pos 0;
  original_parent_ids = [];
  original_owner_permission_id = none;
  quota_bytes_used = none;
  target_permission_id = none;
  state = state;
  canary_selected = false;
  last_error = none;
  created_at = "";
  updated_at = "";
}

-- A shortcut of somebody else: skipped once, and counted both as not owned and as a shortcut.
abbrev foreign_shortcut : List MigrationItem
foreign_shortcut = row "s" shortcut_mime_type ItemState.skipped_not_owned_by_source ∷ []

counted_twice :
    ((item_aggregates 1 foreign_shortcut).skipped ≡ 1)
    × (((item_aggregates 1 foreign_shortcut).skipped_not_owned_by_source ≡ 1)
        × ((item_aggregates 1 foreign_shortcut).skipped_shortcuts ≡ 1))
unfolding item_aggregates count_in_state
counted_twice = (refl, (refl, refl))

item_aggregates_add_up_example :
    let found = item_aggregates 1 foreign_shortcut in
    (found.completed + found.failed + found.skipped + found.eligible ≤ found.total)
    × ((found.eligible_files + found.eligible_folders ≡ found.eligible)
        × (found.skipped
            ≡ found.skipped_already_owned_by_target
              + found.skipped_not_owned_by_source
              + found.skipped_shared_drive
              + count_in_state 1 ItemState.skipped_shortcut_target foreign_shortcut
              + found.skipped_trashed
              + count_in_state 1 ItemState.skipped_ineligible foreign_shortcut))
item_aggregates_add_up_example = item_aggregates_add_up 1 foreign_shortcut

abbrev folder : ScanCheckpoint
folder = record { job_id = 1; folder_id = "f"; page_token = none; depth = pos 0 }

abbrev batch : ItemBatchCommit
batch = record {
  items = row "f" "folder" ItemState.eligible ∷ [];
  checkpoints_upsert = folder ∷ [];
  checkpoints_delete = "p" ∷ [];
}

abbrev before : Tables
before = record { items = foreign_shortcut; checkpoints = record folder { folder_id = "p" } ∷ [] }

abbrev after : Tables
after = record {
  items =
      row "s" shortcut_mime_type ItemState.skipped_not_owned_by_source
      ∷ row "f" "folder" ItemState.eligible
      ∷ [];
  checkpoints = folder ∷ [];
}

-- One item and its checkpoint come, and another checkpoint goes.
commit_scan_batch-IsAllOrNothing_example : ◌≡◌ {A = ℕ} 1 1 × IsBatchStored 1 batch before after
unfolding commit_scan_batch execute_batch execute_items execute_upserts execute_deletes
    end_transaction return throw handle settle ◌>>=◌
commit_scan_batch-IsAllOrNothing_example =
    commit_scan_batch-IsAllOrNothing (λ _. none) (λ _ _. none) (λ _. none) (λ _. none) 1 batch
      before

abbrev deep : MigrationItem
deep = record (row "deep" "text/plain" ItemState.eligible) { depth = pos 3 }

abbrev failed : MigrationItem
failed = record (row "failed" "text/plain" ItemState.retryable_failed) { id = 2 }

abbrev some_rows : List MigrationItem
some_rows = failed ∷ row "done" "text/plain" ItemState.verified ∷ deep ∷ []

-- A database that comes to the second row first.
abbrev exchanged : List MigrationItem → List MigrationItem
exchanged (a ∷ (b ∷ rows)) = b ∷ (a ∷ rows)
exchanged rows = rows

exchanged-IsReordered : (rows : List MigrationItem) → IsReordered rows (exchanged rows)
exchanged-IsReordered [] = unchanged []
exchanged-IsReordered (a ∷ []) = unchanged (a ∷ [])
exchanged-IsReordered (a ∷ (b ∷ rows)) = exchange a b rows

-- The deep item comes first, the failed one after it, the verified one not at all.
listed_for_transfer : list_items_for_transfer exchanged 1 some_rows ≡ deep ∷ failed ∷ []
unfolding list_items_for_transfer sort_rows insert_row row_le name_le awaits_transfer
listed_for_transfer = refl

list_items_for_transfer-IsReordered_example :
    IsReordered
      (filter (λ r. own 1 r && is_transfer_active r.state) some_rows)
      (list_items_for_transfer exchanged 1 some_rows)
    × AreDeepestFirst (list_items_for_transfer exchanged 1 some_rows)
list_items_for_transfer-IsReordered_example =
    list_items_for_transfer-IsReordered exchanged 1 some_rows exchanged-IsReordered

abbrev twin : MigrationItem
twin = record deep { id = 3; file_id = "twin" }

-- Two rows of one depth and one name: where the database comes to them in another order for the second
-- query, the second page of one row shows the row of the first page again.
page_repeats :
    ((list_items_page (λ rows. rows) 1 none 1 1 (deep ∷ twin ∷ [])).items ≡ deep ∷ [])
    × ((list_items_page exchanged 1 none 2 1 (deep ∷ twin ∷ [])).items ≡ deep ∷ [])
unfolding list_items_page sort_rows insert_row row_le name_le passes
page_repeats = (refl, refl)

abbrev ledger : Ledger
ledger = record { items = some_rows; events = [] }

cancel_unstarted_items-AreSwept_example :
    let left = cancel_unstarted_items (λ s. s) (λ _. "") 1 (λ _. ("t1", "t2")) none ledger in
    let unstarted = λ (r : MigrationItem). own 1 r && is_cancellable r.state in
    ((state : ItemState) → is_cancellable state ≡ is_unstarted_for_cancel state)
    × (AreSwept unstarted ItemState.cancelled ledger.items left.1.items
        × ((any unstarted left.1.items ≡ false)
            × ((left.0 ≡ ok (length (filter unstarted ledger.items)))
                × (length left.1.events
                    ≡ length ledger.events + length (filter unstarted ledger.items)))))
cancel_unstarted_items-AreSwept_example =
    cancel_unstarted_items-AreSwept (λ s. s) (λ _. "") 1 (λ _. ("t1", "t2")) ledger
