-- ===== src/Report/Totals.antt =====
-- The counts of the final report divide the items.
use gdom.Base.{
  ℕ, ◌+◌, ◌≡◌, ◌↔◌, Bool, true, false, ◌||◌, List, [], ◌∷◌, length, all, arith, ◌⊎◌, inl, inr, ◌≤◌,
  refl,
}
use gdom.Item.State.{ItemState, is_terminal, same_state}
use gdom.Report.Counts.{
  FinalReportCounts, FinalReportItem, no_counts, count_state, count_items, counts,
}

abbrev pub parts : FinalReportCounts → ℕ
parts c = c.verified + c.failed + c.cancelled + c.skipped + c.unfinished

-- A state in which nothing is left to do but a retry that somebody asks for.
abbrev pub is_settled : ItemState → Bool
is_settled s = is_terminal s || same_state s ItemState.retryable_failed

count_state-parts :
    (s : ItemState) (c : FinalReportCounts)
    → (parts (count_state s c) ≡ parts c + 1) × ((count_state s c).total ≡ c.total)
unfolding count_state
count_state-parts ItemState.discovered c = (omega arith, ground arith)
count_state-parts _ c = (omega arith, ground arith)

count_items-parts :
    (items : List FinalReportItem) (c : FinalReportCounts)
    → (parts (count_items items c) ≡ parts c + length items)
      × ((count_items items c).total ≡ c.total + length items)
unfolding count_items
count_items-parts [] c = (omega arith, omega arith)
count_items-parts (item ∷ items) c =
    let next = record c { total = c.total + 1 } in
    let later = count_items-parts items (count_state item.state next) in
    let here = count_state-parts item.state next in
    (omega (arith, later.0, here.0), omega (arith, later.1, here.1))

-- The report's total is the number of the items, and each item is in exactly one of the five parts:
-- verified, failed, cancelled, skipped and unfinished add up to the total.
pub counts-total :
    (items : List FinalReportItem)
    → ((counts items).total ≡ length items) × (parts (counts items) ≡ (counts items).total)
unfolding counts
counts-total items =
    let h = count_items-parts items no_counts in (omega (arith, h.1), omega (arith, h.0, h.1))

count_state-unfinished :
    (s : ItemState) (c : FinalReportCounts)
    → ((is_settled s ≡ true) × ((count_state s c).unfinished ≡ c.unfinished))
      ⊎ ((is_settled s ≡ false) × ((count_state s c).unfinished ≡ c.unfinished + 1))
unfolding count_state is_terminal
count_state-unfinished ItemState.discovered c = ground arith
count_state-unfinished _ c = ground arith

count_items-grows :
    (items : List FinalReportItem) (c : FinalReportCounts)
    → c.unfinished ≤ (count_items items c).unfinished
unfolding count_items
count_items-grows [] c = omega arith
count_items-grows (item ∷ items) c =
    let next = record c { total = c.total + 1 } in
    elim (count_state-unfinished item.state next) [
      | inl h ↦ omega (arith, h.1, count_items-grows items (count_state item.state next))
      | inr h ↦ omega (arith, h.1, count_items-grows items (count_state item.state next))
    ]

count_items-unfinished :
    (items : List FinalReportItem) (c : FinalReportCounts)
    → c.unfinished ≡ 0
    → ((count_items items c).unfinished ≡ 0) ↔ (all (λ item. is_settled item.state) items ≡ true)
unfolding count_items
count_items-unfinished [] c z = ground arith
count_items-unfinished (item ∷ items) c z =
    let next = record c { total = c.total + 1 } in
    elim (count_state-unfinished item.state next) [
      | inl h ↦ ground (arith, h.0, count_items-unfinished items (count_state item.state next))
      | inr h ↦ ground (arith, h.0, count_items-grows items (count_state item.state next))
    ]

-- The report shows nothing unfinished exactly when every item is settled: in a final state, or failed
-- and open to a retry.
pub counts-unfinished :
    (items : List FinalReportItem)
    → ((counts items).unfinished ≡ 0) ↔ (all (λ item. is_settled item.state) items ≡ true)
unfolding counts
counts-unfinished items = count_items-unfinished items no_counts refl
