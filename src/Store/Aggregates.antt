-- ===== src/Store/Aggregates.antt =====
-- src-tauri/src/infrastructure/item_store.rs: `item_aggregates` and `count_state`. A sum in SQLite
-- that leaves the i64 range is an error of the query, and is not modelled.
use gdom.Base.{
  ℕ, ◌≡◌, ◌≤◌, ◌+◌, ◌-◌, ℤ, pos, pos_part, neg_part, List, [], ◌∷◌, Bool, ◌&&◌, ◌||◌, Option, none,
  some, ◌==◌, str_eq, filter, length, if◌then◌else◌, arith,
}
use gdom.Item.State.{ItemState, MigrationItem, same_state, is_skipped}
use gdom.Drive.Types.{folder_mime_type, shortcut_mime_type}
use gdom.Transfer.Types.{ItemAggregates}

module _ (job_id : ℕ) where
  abbrev pub own : MigrationItem → Bool
  own row = row.job_id == job_id

  -- `SELECT COUNT(*) FROM migration_items WHERE job_id = ?1 AND ...`.
  abbrev pub count_where : (MigrationItem → Bool) → List MigrationItem → ℕ
  count_where test rows = length (filter (λ row. own row && test row) rows)

  unfoldable pub count_in_state : ItemState → List MigrationItem → ℕ
  count_in_state state = count_where (λ row. same_state row.state state)

  abbrev pub quota_of : Option ℤ → ℤ
  quota_of none = pos 0
  quota_of (some bytes) = bytes

  -- The two halves of `SUM(quota_bytes_used)` over the eligible items.
  abbrev pub sum_quota : (ℤ → ℕ) → List MigrationItem → ℕ
  sum_quota part [] = 0
  sum_quota part (row ∷ rows) =
      (if own row && same_state row.state ItemState.eligible
        then part (quota_of row.quota_bytes_used)
        else 0)
      + sum_quota part rows

  abbrev pub is_failed_state : ItemState → Bool
  is_failed_state state =
      same_state state ItemState.retryable_failed || same_state state ItemState.permanent_failed

  unfoldable pub item_aggregates : List MigrationItem → ItemAggregates
  unfolding count_in_state is_skipped
  item_aggregates rows =
      let eligible = count_in_state ItemState.eligible rows in
      let eligible_folders =
        count_where
          (λ row. same_state row.state ItemState.eligible && str_eq row.mime_type folder_mime_type)
          rows in
      let skipped_shortcuts = count_where (λ row. str_eq row.mime_type shortcut_mime_type) rows in
      record {
        total = length (filter own rows);
        completed = count_in_state ItemState.verified rows;
        failed = count_where (λ row. is_failed_state row.state) rows;
        skipped = count_where (λ row. is_skipped row.state) rows;
        eligible = eligible;
        eligible_files = eligible - eligible_folders;
        eligible_folders = eligible_folders;
        skipped_already_owned_by_target =
            count_in_state ItemState.skipped_already_owned_by_target rows;
        skipped_not_owned_by_source = count_in_state ItemState.skipped_not_owned_by_source rows;
        skipped_shared_drive = count_in_state ItemState.skipped_shared_drive rows;
        skipped_shortcuts = skipped_shortcuts;
        skipped_trashed = count_in_state ItemState.skipped_trashed rows;
        skipped_ineligible = count_in_state ItemState.skipped_ineligible rows - skipped_shortcuts;
        estimated_quota_bytes = sum_quota pos_part rows - sum_quota neg_part rows;
      }

  counts_split :
      (rows : List MigrationItem)
      → (count_where (λ row. is_skipped row.state) rows
          ≡ count_in_state ItemState.skipped_already_owned_by_target rows
            + count_in_state ItemState.skipped_not_owned_by_source rows
            + count_in_state ItemState.skipped_shared_drive rows
            + count_in_state ItemState.skipped_shortcut_target rows
            + count_in_state ItemState.skipped_trashed rows
            + count_in_state ItemState.skipped_ineligible rows)
        × ((count_where
                (λ row.
                  same_state row.state ItemState.eligible && str_eq row.mime_type folder_mime_type)
                rows
              ≤ count_in_state ItemState.eligible rows)
            × (count_in_state ItemState.verified rows
                  + count_where (λ row. is_failed_state row.state) rows
                  + count_where (λ row. is_skipped row.state) rows
                  + count_in_state ItemState.eligible rows
                ≤ length (filter own rows)))
  unfolding count_in_state is_skipped
  counts_split [] = ground arith
  counts_split (row ∷ rows) = ground (arith, counts_split rows)

  -- Completed, failed, skipped and eligible items are among all, each counted once; the skipped ones
  -- are those of the six skipped states together; files and folders are the eligible items.
  pub item_aggregates_add_up :
      (rows : List MigrationItem)
      → let found = item_aggregates rows in
        (found.completed + found.failed + found.skipped + found.eligible ≤ found.total)
        × ((found.eligible_files + found.eligible_folders ≡ found.eligible)
            × (found.skipped
                ≡ found.skipped_already_owned_by_target
                  + found.skipped_not_owned_by_source
                  + found.skipped_shared_drive
                  + count_in_state ItemState.skipped_shortcut_target rows
                  + found.skipped_trashed
                  + count_in_state ItemState.skipped_ineligible rows))
  unfolding item_aggregates
  item_aggregates_add_up rows =
      let split = counts_split rows in (split.1.1, (omega (arith, split), split.0))
