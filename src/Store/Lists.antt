-- ===== src/Store/Lists.antt =====
-- What the lists of the item store hold, and in which order.
use gdom.Base.{
  ℕ, ◌≡◌, refl, ltb_ℤ, List, [], ◌∷◌, Bool, true, false, ◌&&◌, arith, filter, ap, subst,
  if◌then◌else◌,
}
use gdom.Base.Reorder.{IsReordered, both_empty, same_head, exchange, through, unchanged}
use gdom.Item.State.{ItemState, MigrationItem, is_transfer_active}
use gdom.Store.Aggregates.{own}
use gdom.Store.Order.{row_le, insert_row, sort_rows, awaits_transfer, list_items_for_transfer}

-- No row stands before a deeper one.
abbrev pub AreDeepestFirst : List MigrationItem → Type 0
AreDeepestFirst [] = Unit
AreDeepestFirst (a ∷ []) = Unit
AreDeepestFirst (a ∷ (b ∷ rows)) = (ltb_ℤ a.depth b.depth ≡ false) × AreDeepestFirst (b ∷ rows)

insert_row-AreDeepestFirst :
    (row : MigrationItem) (rows : List MigrationItem)
    → AreDeepestFirst rows
    → AreDeepestFirst (insert_row row rows)
unfolding insert_row row_le
insert_row-AreDeepestFirst row [] ordered = tt
insert_row-AreDeepestFirst row (a ∷ []) ordered = ground arith
insert_row-AreDeepestFirst row (a ∷ (b ∷ rows)) ordered =
    ground (arith, insert_row-AreDeepestFirst row (b ∷ rows) ordered.1)

sort_rows-AreDeepestFirst : (rows : List MigrationItem) → AreDeepestFirst (sort_rows rows)
unfolding sort_rows
sort_rows-AreDeepestFirst [] = tt
sort_rows-AreDeepestFirst (row ∷ rows) =
    insert_row-AreDeepestFirst row (sort_rows rows) (sort_rows-AreDeepestFirst rows)

insert_row-IsReordered :
    (row : MigrationItem) (rows : List MigrationItem)
    → IsReordered (row ∷ rows) (insert_row row rows)
unfolding insert_row
insert_row-IsReordered row [] = unchanged (row ∷ [])
insert_row-IsReordered row (other ∷ rows) =
    placed (row_le row other) (insert_row-IsReordered row rows)
  where
    placed :
        (first : Bool)
        → IsReordered (row ∷ rows) (insert_row row rows)
        → IsReordered
            (row ∷ other ∷ rows)
            (if first then row ∷ other ∷ rows else other ∷ insert_row row rows)
    placed true rest = unchanged (row ∷ other ∷ rows)
    placed false rest = through (exchange row other rows) (same_head other rest)

sort_rows-IsReordered : (rows : List MigrationItem) → IsReordered rows (sort_rows rows)
unfolding sort_rows
sort_rows-IsReordered [] = both_empty
sort_rows-IsReordered (row ∷ rows) =
    through (same_head row (sort_rows-IsReordered rows))
      (insert_row-IsReordered row (sort_rows rows))

awaits_transfer-active : (state : ItemState) → awaits_transfer state ≡ is_transfer_active state
unfolding awaits_transfer is_transfer_active
awaits_transfer-active state = ground arith

same_filter :
    (p q : MigrationItem → Bool) (rows : List MigrationItem)
    → ((row : MigrationItem) → p row ≡ q row)
    → filter p rows ≡ filter q rows
same_filter p q [] same = refl
same_filter p q (row ∷ rows) same = ground (arith, same row, same_filter p q rows same)

-- The items to transfer are the job's items in an active state, each once, the deepest first, in
-- whatever order the database comes to the rows.
pub list_items_for_transfer-IsReordered :
    (visits : List MigrationItem → List MigrationItem) (job_id : ℕ) (rows : List MigrationItem)
    → ((found : List MigrationItem) → IsReordered found (visits found))
    → IsReordered
        (filter (λ row. own job_id row && is_transfer_active row.state) rows)
        (list_items_for_transfer visits job_id rows)
      × AreDeepestFirst (list_items_for_transfer visits job_id rows)
unfolding list_items_for_transfer
list_items_for_transfer-IsReordered visits job_id rows visited =
    let found = filter (λ row. own job_id row && awaits_transfer row.state) rows in
    (
      subst (λ active. IsReordered active (sort_rows (visits found)))
          (same_filter _ _ rows
            (λ row. ap (λ b. own job_id row && b) (awaits_transfer-active row.state)))
          (through (visited found) (sort_rows-IsReordered (visits found))),
      sort_rows-AreDeepestFirst (visits found),
    )
