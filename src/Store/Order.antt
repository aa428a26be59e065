-- ===== src/Store/Order.antt =====
-- src-tauri/src/infrastructure/item_store.rs: `ORDER BY depth DESC, name COLLATE NOCASE ASC`, and the
-- lists that a transfer and the window read. `visits` is the order in which SQLite comes to the rows of
-- a query, which leaves open how rows stand that the ORDER BY does not tell apart; the filter of a page
-- is given as it is trimmed.
use gdom.Base.{
  ℕ, ◌-◌, ◌*◌, ◌%◌, ◌^◌, ltb_ℤ, String, List, [], ◌∷◌, Bool, true, false, not, ◌&&◌, ◌||◌, Option,
  none, some, ◌==◌, ltb, str_eq, filter, take, drop, length, map, ascii_lower, codes, if◌then◌else◌,
}
use gdom.Item.State.{ItemState, MigrationItem, same_state, is_skipped, as_str}
use gdom.Drive.Types.{shortcut_mime_type}
use gdom.Store.Aggregates.{own}

abbrev pub codes_le : List ℕ → List ℕ → Bool
codes_le [] ys = true
codes_le (x ∷ xs) [] = false
codes_le (x ∷ xs) (y ∷ ys) = ltb x y || (x == y && codes_le xs ys)

-- NOCASE compares by the codes, ASCII capitals taken as small letters.
unfoldable pub name_le : String → String → Bool
name_le a b = codes_le (map ascii_lower (codes a)) (map ascii_lower (codes b))

unfoldable pub row_le : MigrationItem → MigrationItem → Bool
row_le a b = ltb_ℤ b.depth a.depth || (not (ltb_ℤ a.depth b.depth) && name_le a.name b.name)

unfoldable pub insert_row : MigrationItem → List MigrationItem → List MigrationItem
insert_row row [] = row ∷ []
insert_row row (other ∷ rows) =
    if row_le row other then row ∷ other ∷ rows else other ∷ insert_row row rows

unfoldable pub sort_rows : List MigrationItem → List MigrationItem
sort_rows [] = []
sort_rows (row ∷ rows) = insert_row row (sort_rows rows)

-- The states that the query of `list_items_for_transfer` names.
unfoldable pub awaits_transfer : ItemState → Bool
awaits_transfer ItemState.eligible = true
awaits_transfer ItemState.pending_owner_required = true
awaits_transfer ItemState.pending_owner_created = true
awaits_transfer ItemState.accept_required = true
awaits_transfer ItemState.accepting = true
awaits_transfer ItemState.transferred = true
awaits_transfer ItemState.verifying = true
awaits_transfer ItemState.retryable_failed = true
awaits_transfer _ = false

-- The filter of a page, by name.
unfoldable pub passes : Option String → MigrationItem → Bool
unfolding is_skipped
passes none row = true
passes (some name) row =
    if str_eq name "" || str_eq name "all"
    then true
    else if str_eq name "eligible"
    then same_state row.state ItemState.eligible
    else if str_eq name "skipped"
    then is_skipped row.state
    else if str_eq name "ineligible"
    then same_state row.state ItemState.skipped_not_owned_by_source
      || (same_state row.state ItemState.skipped_shared_drive
          || (same_state row.state ItemState.skipped_trashed
              || same_state row.state ItemState.skipped_ineligible))
    else if str_eq name "shortcut" || str_eq name "shortcuts"
    then str_eq row.mime_type shortcut_mime_type
    else str_eq (as_str row.state) name

pub record ItemPage : Type 0 where
  pub items : List MigrationItem
  pub page : ℕ
  pub page_size : ℕ
  pub total : ℕ

-- `page.max(1)` and `page_size.clamp(1, 500)`.
abbrev pub at_least_one : ℕ → ℕ
at_least_one n = if ltb n 1 then 1 else n

abbrev pub clamp_size : ℕ → ℕ
clamp_size n = if ltb 500 n then 500 else at_least_one n

-- The product of two `u32` wraps.
abbrev pub offset_of : ℕ → ℕ → ℕ
offset_of page page_size = (page - 1) * page_size % 2 ^ 32

module _ (visits : List MigrationItem → List MigrationItem) (job_id : ℕ) where
  unfoldable pub list_items_for_transfer : List MigrationItem → List MigrationItem
  list_items_for_transfer rows =
      sort_rows (visits (filter (λ row. own job_id row && awaits_transfer row.state) rows))

  unfoldable pub list_canary_cohort : List MigrationItem → List MigrationItem
  list_canary_cohort rows =
      sort_rows (visits (filter (λ row. own job_id row && row.canary_selected) rows))

  unfoldable pub list_items_page : Option String → ℕ → ℕ → List MigrationItem → ItemPage
  list_items_page name page page_size rows =
      let found = filter (λ row. own job_id row && passes name row) rows in
      let page' = at_least_one page in
      let size = clamp_size page_size in
      record {
        items = take size (drop (offset_of page' size) (sort_rows (visits found)));
        page = page';
        page_size = size;
        total = length found;
      }
