-- ===== src/Transfer/Table.antt =====
-- Sets of item states as tests, checked against the transition table by evaluation, and what a step
-- must not lose of its item.
use gdom.Base.{◌≡◌, Bool, true, false, not, ◌&&◌, ◌||◌, arith}
use gdom.Item.State.{
  ItemState, discovered, eligible, pending_owner_required, pending_owner_created, accept_required,
  accepting, transferred, verifying, verified, skipped_already_owned_by_target,
  skipped_not_owned_by_source, skipped_shared_drive, skipped_shortcut_target, skipped_trashed,
  skipped_ineligible, retryable_failed, permanent_failed, cancelled, MigrationItem, same_state,
  is_terminal,
}
use gdom.Transfer.Types.{StepOutcome, StepError, TransferError, TransferHalt}

unfoldable pub every : (ItemState → Bool) → Bool
every f =
    f discovered
    && (f eligible
        && (f pending_owner_required
            && (f pending_owner_created
                && (f accept_required
                    && (f accepting
                        && (f transferred
                            && (f verifying
                                && (f verified
                                    && (f skipped_already_owned_by_target
                                        && (f skipped_not_owned_by_source
                                            && (f skipped_shared_drive
                                                && (f skipped_shortcut_target
                                                    && (f skipped_trashed
                                                        && (f skipped_ineligible
                                                            && (f retryable_failed
                                                            && (f permanent_failed
                                                            && f cancelled))))))))))))))))

pub every_sound : (f : ItemState → Bool) → every f ≡ true → (s : ItemState) → f s ≡ true
unfolding every
every_sound f h discovered = ground arith
every_sound f h _ = ground arith

-- Every state of one set lies in the other.
abbrev pub Within : (ItemState → Bool) → (ItemState → Bool) → Type 0
Within p q = every (λ s. not (p s) || q s) ≡ true

pub within : (p q : ItemState → Bool) → Within p q → (s : ItemState) → p s ≡ true → q s ≡ true
within p q h s m = ground (arith, every_sound (λ s. not (p s) || q s) h s)

-- The states from which a failure can be recorded.
abbrev pub may_fail : ItemState → Bool
may_fail discovered = false
may_fail _ = true

-- What the transfer takes up: every active state, but for one that is never stored.
abbrev pub is_startable : ItemState → Bool
is_startable eligible = true
is_startable pending_owner_required = true
is_startable accept_required = true
is_startable accepting = true
is_startable transferred = true
is_startable verifying = true
is_startable retryable_failed = true
is_startable _ = false

-- The states that `reconcile_and_prepare` looks at Drive from, when it starts from a startable one.
abbrev pub is_unprepared : ItemState → Bool
is_unprepared eligible = true
is_unprepared pending_owner_required = true
is_unprepared retryable_failed = true
is_unprepared _ = false

pub record SameIdentity (old item : MigrationItem) : Type 0 where
  pub same_id : item.id ≡ old.id
  pub same_file : item.file_id ≡ old.file_id
  pub same_original_parents : item.original_parent_ids ≡ old.original_parent_ids

abbrev pub At : MigrationItem → (ItemState → Bool) → MigrationItem → Type 0
At old p item = (p item.state ≡ true) × SameIdentity old item

-- The errors that a part of a step may end in: all but a refused transition, and a halt that only
-- the loop over the items answers.
abbrev pub is_sound : StepOutcome → Bool
is_sound StepOutcome.invalid_state = false
is_sound (StepOutcome.halt (TransferHalt.exhausted _ _) _) = false
is_sound _ = true

-- Such an error arises where a failure can be recorded, of the item that the step is for.
abbrev pub IsSafe : MigrationItem → StepOutcome → MigrationItem → Type 0
IsSafe old e item = (is_sound e ≡ true) × ((may_fail item.state ≡ true) × SameIdentity old item)

-- The same of the errors of a whole step.
abbrev pub is_sound_stop : StepError → Bool
is_sound_stop (StepError.fatal TransferError.invalid_item_state) = false
is_sound_stop (StepError.halt (TransferHalt.exhausted _ _)) = false
is_sound_stop _ = true

-- Where a failed item comes to rest: to be retried, or in a final state.
abbrev pub is_settled : ItemState → Bool
is_settled s = is_terminal s || same_state s retryable_failed
