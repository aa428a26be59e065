-- ===== src/Store/Sweeps.antt =====
-- What the changes of stored items leave: the cancellation of unstarted items, the retry of failed
-- ones and the saving of one.
use gdom.Base.{
  ℕ, ◌≡◌, refl, ◌+◌, String, List, [], ◌∷◌, ◌++◌, map, Bool, true, false, ◌&&◌, Option, none, ok,
  err, arith, any, filter, length, length-append, if◌then◌else◌, Bool-cases, inl, inr, Result, ◌⊎◌,
}
use gdom.Item.State.{
  ItemState, ItemErrorDetails, MigrationItem, same_state, is_unstarted_for_cancel,
  can_transition_to, lists,
}
use gdom.Transfer.Table.{SameIdentity}
use gdom.Transfer.Types.{ItemStoreError}
use gdom.Store.Aggregates.{own}
use gdom.Store.Changes.{
  AuditEvent, Ledger, replace_rows, sweep, is_cancellable, cancel_unstarted_items,
  retry_failed_items, is_row,
}

-- The rows that pass the test are in the new state, with their files as they were; the others are as
-- they were.
abbrev pub AreSwept :
    (MigrationItem → Bool) → ItemState → List MigrationItem → List MigrationItem → Type 0
AreSwept test new [] [] = Unit
AreSwept test new (row ∷ rows) (row' ∷ rows') =
    ((test row ≡ false → row' ≡ row)
      × (test row ≡ true → (row'.state ≡ new) × SameIdentity row row'))
    × AreSwept test new rows rows'
AreSwept test new _ _ = true ≡ false

replace_rows-AreSwept :
    (test : MigrationItem → Bool) (new : ItemState) (change : MigrationItem → MigrationItem)
    (rows : List MigrationItem)
    → ((row : MigrationItem) → ((change row).state ≡ new) × SameIdentity row (change row))
    → AreSwept test new rows (replace_rows test change rows)
replace_rows-AreSwept test new change [] changes = tt
replace_rows-AreSwept test new change (row ∷ rows) changes =
    (swept (test row), replace_rows-AreSwept test new change rows changes)
  where
    swept :
        (passes : Bool)
        → (passes ≡ false → (if passes then change row else row) ≡ row)
          × (passes ≡ true
              → ((if passes then change row else row).state ≡ new)
                × SameIdentity row (if passes then change row else row))
    swept true = (λ h. cc, λ h. changes row)
    swept false = (λ h. refl, λ h. cc)

none_left :
    (test : MigrationItem → Bool) (change : MigrationItem → MigrationItem)
    (rows : List MigrationItem)
    → ((row : MigrationItem) → test (change row) ≡ false)
    → any test (replace_rows test change rows) ≡ false
none_left test change [] changes = refl
none_left test change (row ∷ rows) changes = elim (Bool-cases (test row)) [
  | inl passes ↦ ground (arith, passes, changes row, none_left test change rows changes)
  | inr stays ↦ ground (arith, stays, none_left test change rows changes)
]

length-map : {A B : Type 0} (f : A → B) (xs : List A) → length (map f xs) ≡ length xs
length-map f [] = refl
length-map f (x ∷ xs) = omega (arith, length-map f xs)

added :
    (events : List AuditEvent) (event : MigrationItem → AuditEvent) (rows : List MigrationItem)
    → length (events ++ map event rows) ≡ length events + length rows
added events event rows =
    omega (arith, length-append events (map event rows), length-map event rows)

is_cancellable-unstarted :
    (state : ItemState) → is_cancellable state ≡ is_unstarted_for_cancel state
unfolding is_cancellable is_unstarted_for_cancel
is_cancellable-unstarted state = ground arith

module _ (redact : String → String) (error_json : Option ItemErrorDetails → String) (job_id : ℕ)
    (stamps : MigrationItem → String × String) (ledger : Ledger) where
  -- The cancellation of unstarted items leaves none of the job's: each of them is cancelled, every
  -- other row is as it was, the answer is how many they were, and so many events are added.
  pub cancel_unstarted_items-AreSwept :
      let left = cancel_unstarted_items redact error_json job_id stamps none ledger in
      let unstarted = λ (row : MigrationItem). own job_id row && is_cancellable row.state in
      ((state : ItemState) → is_cancellable state ≡ is_unstarted_for_cancel state)
      × (AreSwept unstarted ItemState.cancelled ledger.items left.1.items
          × ((any unstarted left.1.items ≡ false)
              × ((left.0 ≡ ok (length (filter unstarted ledger.items)))
                  × (length left.1.events
                      ≡ length ledger.events + length (filter unstarted ledger.items)))))
  unfolding cancel_unstarted_items sweep is_cancellable
  cancel_unstarted_items-AreSwept = (
    is_cancellable-unstarted,
    (
      replace_rows-AreSwept _ _ _ ledger.items (λ row.
          (refl, record { same_id = refl; same_file = refl; same_original_parents = refl })),
      (
        none_left (λ row. own job_id row && is_cancellable row.state)
            (λ row. record row { state = ItemState.cancelled; updated_at = (stamps row).0 })
            ledger.items (λ row. ground arith),
        (refl, added _ _ _),
      ),
    ),
  )

  -- The retry of failed items leaves no retryable failure of the job: each of them waits for a pending
  -- owner again, by a transition that the table permits, every other row is as it was, the answer is
  -- how many they were, and so many events are added.
  pub retry_failed_items-AreSwept :
      let left = retry_failed_items redact error_json job_id stamps none ledger in
      let failed = λ (row : MigrationItem).
        own job_id row && same_state row.state ItemState.retryable_failed in
      AreSwept failed ItemState.pending_owner_required ledger.items left.1.items
      × ((can_transition_to ItemState.retryable_failed ItemState.pending_owner_required ≡ true)
          × ((any failed left.1.items ≡ false)
              × ((left.0 ≡ ok (length (filter failed ledger.items)))
                  × (length left.1.events
                      ≡ length ledger.events + length (filter failed ledger.items)))))
  unfolding retry_failed_items sweep can_transition_to lists
  retry_failed_items-AreSwept = (
    replace_rows-AreSwept _ _ _ ledger.items
        (λ row. (refl, record { same_id = refl; same_file = refl; same_original_parents = refl })),
    (
      refl,
      (
        none_left (λ row. own job_id row && same_state row.state ItemState.retryable_failed)
            (λ row. record row {
              state = ItemState.pending_owner_required;
              updated_at = (stamps row).0;
              last_error = none;
            })
            ledger.items (λ row. ground arith),
        (refl, added _ _ _),
      ),
    ),
  )

-- What a save leaves: an error nothing, an answer the row in the item's state, and one event at most.
abbrev pub AreSaved : Result ItemStoreError (Unit {0}) → MigrationItem → Ledger → Ledger → Type 0
AreSaved (err e) item before after = after ≡ before
AreSaved (ok tt) item before after =
    AreSwept (is_row item) item.state before.items after.items
    × ((before.events ≡ after.events)
        ⊎ ((event : AuditEvent) × (after.events ≡ before.events ++ event ∷ [])))
