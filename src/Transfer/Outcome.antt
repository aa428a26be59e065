-- ===== src/Transfer/Outcome.antt =====
-- How a step of the transfer ends, whatever Drive, the store and the clock do.
use gdom.Base.{
  ok, ◌≡◌, ◌≢◌, refl, ap, subst, sym, ◌∙◌, Bool, true, false, not, ◌||◌, arith, inl, inr,
}
use gdom.Item.State.{
  ItemState, ItemErrorDetails, MigrationItem, can_transition_to, same_state, is_skipped,
  is_terminal,
}
use gdom.Transfer.Types.{
  TransferRun, StepOutcome, StepError, TransferError, PrepareAction, TransferHalt,
}
use gdom.Transfer.Steps.{apply_state, persist}
use gdom.Transfer.Item.{
  record_error, give_up, touch, finalize_step, close, verify_and_close, act, transfer_held,
}
use gdom.Transfer.Reached.{IsStable}
use gdom.Transfer.Hoare.{
  Triple, bind_rule, handle_rule, return_rule, throw_rule, held_rule, change_rule, before, after,
  if_rule,
}
use gdom.Transfer.Rules.{apply_rule, store_rule}
use gdom.Transfer.Table.{
  every, every_sound, within, may_fail, is_startable, is_settled, SameIdentity, At, IsSafe,
  is_sound, is_sound_stop,
}
use gdom.Transfer.Parts.{Prepared, keep_identity}
use gdom.Transfer.Soundness.{IsConfirmed, reconcile_triple}
use gdom.Transfer.Verification.{
  Seen, is_verifiable, accept_ownership_triple, verify_ownership_triple,
}

-- The store accepted this row, in a world that the step came to.
abbrev pub IsStoredIn : {W : Type 0} → TransferRun W → (W → Type 0) → MigrationItem → Type 0
IsStoredIn {W} run K item = (w : W) × (K w × ((run.store_port.save_item item w).0 ≡ ok tt))

-- The store accepted a row of the item, in a state from which it can be retried or in a final one.
pub record IsGivenUp {W : Type 0} (run : TransferRun W) (K : W → Type 0) (old : MigrationItem)
    : Type 0 where
  pub row : MigrationItem
  pub same_item : SameIdentity old row
  pub settled : is_settled row.state ≡ true
  pub stored : IsStoredIn run K row

-- An error of a step: never a refused transition, and where it counts as a failure the store has
-- the item at rest.
abbrev pub Stops :
    {W : Type 0} → TransferRun W → (W → Type 0) → MigrationItem → StepError → MigrationItem → Type 0
Stops run K old e item = (is_sound_stop e ≡ true) × (e ≡ StepError.failed → IsGivenUp run K old)

-- An answer of a step: the item is in that state, the state is final, and `verified` was confirmed.
abbrev pub Answers :
    {W : Type 0} → TransferRun W → (W → Type 0) → MigrationItem → ItemState → MigrationItem → Type 0
Answers run K old state item =
    (item.state ≡ state)
    × (is_terminal state ≡ true)
    × (state ≡ ItemState.verified → IsConfirmed run K old)

not_both : {b : Bool} → b ≡ false → b ≡ true → ⊥
not_both e h = cc

not_verified_state : ItemState.skipped_trashed ≢ ItemState.verified
not_verified_state e = cc

skipped_final : (s : ItemState) → is_skipped s ≡ true → is_terminal s ≡ true
unfolding is_skipped is_terminal
skipped_final s h = ground arith

skipped_not_verified : (s : ItemState) → is_skipped s ≡ true → s ≢ ItemState.verified
unfolding is_skipped
skipped_not_verified s h e = ground arith

startable_open : (s : ItemState) → is_startable s ≡ true → is_terminal s ≡ false
unfolding is_terminal
startable_open s h = ground arith

halting :
    (halt : TransferHalt) (details : ItemErrorDetails)
    → is_sound (StepOutcome.halt halt details) ≡ true
    → is_sound_stop (StepError.halt halt) ≡ true
halting halt details h = ground arith

module _ {W : Type 0} (run : TransferRun W) {K : W → Type 0} (stable : IsStable run K)
    (old : MigrationItem) where
  persist_triple :
      {P : MigrationItem → Type 0}
      → Triple K (Stops run K old) P (persist run) (λ _ now. P now × IsStoredIn run K now)
  unfolding persist
  persist_triple = bind_rule held_rule λ item.
      after
        (store_rule run stable (λ e. StepError.fatal (TransferError.store e))
          (λ e now h. (refl, (λ x. cc))) item)
        (λ _ now h. (h.0.0, subst (IsStoredIn run K) h.0.1 h.1))

  stuck :
      (next : ItemState) (now : MigrationItem)
      → every (λ s. not (may_fail s) || (is_terminal s || can_transition_to s next)) ≡ true
      → may_fail now.state ≡ true
      → is_terminal now.state ≡ false
      → can_transition_to now.state next ≡ false
      → ⊥
  stuck next now permitted may open_ denied = ground (
    arith,
    every_sound (λ s. not (may_fail s) || (is_terminal s || can_transition_to s next)) permitted
        now.state,
  )

  give_up_triple :
      (details : ItemErrorDetails) (next : ItemState)
      → every (λ s. not (may_fail s) || (is_terminal s || can_transition_to s next)) ≡ true
      → is_settled next ≡ true
      → Triple K
          (Stops run K old)
          (λ item. (may_fail item.state ≡ true) × SameIdentity old item)
          (give_up run details next)
          (Answers run K old)
  unfolding give_up record_error apply_state
  give_up_triple details next permitted settled =
      bind_rule
        (change_rule {Q = λ item. (may_fail item.state ≡ true) × SameIdentity old item} _
          (λ item h. (h.0, keep_identity run stable old item _ h.1 refl refl refl)))
        λ _. bind_rule held_rule λ item.
          bind_rule {Q = λ _ now. (is_settled now.state ≡ true) × SameIdentity old now}
            (if_rule (is_terminal item.state)
              (λ e.
                return_rule tt
                  (λ now h. (subst (λ i. is_settled i.state ≡ true) h.1 (rw e), h.0.1)))
              λ e.
                apply_rule run stable (StepError.fatal TransferError.invalid_item_state) next
                  (λ now last_error at h _.
                    (settled, keep_identity run stable old now _ h.0.1 refl refl refl))
                  (λ now h denied. absurd (
                    stuck next now permitted h.0.0 (subst (λ i. is_terminal i.state ≡ false) h.1 e)
                      denied)))
            λ _. bind_rule persist_triple λ _. throw_rule StepError.failed (λ now h.
              (refl, λ _. record { row = now; same_item = h.0.1; settled = h.0.0; stored = h.1 }))

  halt_triple :
      (halt : TransferHalt) (details : ItemErrorDetails)
      → is_sound (StepOutcome.halt halt details) ≡ true
      → Triple K
          (Stops run K old)
          (λ item. (may_fail item.state ≡ true) × SameIdentity old item)
          (finalize_step run (StepOutcome.halt halt details))
          (Answers run K old)
  unfolding finalize_step record_error touch
  halt_triple halt details sound = bind_rule (change_rule {Q = λ _. Unit {0}} _ (λ item h. tt)) λ _.
      bind_rule {Q = λ _ _. Unit {0}} (record { holds = λ item w k h. (stable.clock w k, tt) })
        λ _.
          bind_rule persist_triple
            λ _. throw_rule (StepError.halt halt) (λ now h. (halting halt details sound, (λ x. cc)))

  finalize_triple :
      (e : StepOutcome)
      → Triple K (Stops run K old) (IsSafe old e) (finalize_step run e) (Answers run K old)
  unfolding finalize_step every can_transition_to is_terminal
  finalize_triple (StepOutcome.halt halt details) = record {
    holds = λ item w k h. (halt_triple halt details h.0).holds item w k h.1;
  }
  finalize_triple (StepOutcome.store e) =
      throw_rule (StepError.fatal (TransferError.store e)) (λ now h. (refl, (λ x. cc)))
  finalize_triple StepOutcome.invalid_state =
      throw_rule (StepError.fatal TransferError.invalid_item_state)
        (λ now h. absurd (not_both refl h.0))
  finalize_triple (StepOutcome.permanent details) =
      before (give_up_triple details ItemState.permanent_failed refl refl) (λ _ h. h.1)
  finalize_triple (StepOutcome.retryable details) =
      before (give_up_triple details ItemState.retryable_failed refl refl) (λ _ h. h.1)

  close_triple : Triple K (Stops run K old) (Seen run K old tt) (close run) (Answers run K old)
  unfolding close record_error apply_state can_transition_to is_terminal
  close_triple = bind_rule held_rule λ item.
      if_rule (is_terminal item.state)
        (λ e.
          return_rule item.state
            (λ now h. answered item now (ap (λ i. i.state) h.1) e (trashed item now h.1 e h.0)))
        λ e.
          bind_rule
            (change_rule {Q = λ now. (now.state ≡ ItemState.verifying) × IsConfirmed run K old} _
              (λ now h. unverified item now h.1 e h.0))
            λ _.
              bind_rule {Q = λ _ now. (now.state ≡ ItemState.verified) × IsConfirmed run K old}
                (apply_rule run stable (StepError.fatal TransferError.invalid_item_state)
                  ItemState.verified (λ now last_error at h _. (refl, h.1))
                  (λ now h denied. absurd (ground arith)))
                λ _.
                  bind_rule persist_triple
                    λ _. return_rule ItemState.verified (λ now h. (h.0.0, refl, λ _. h.0.1))
    where
      unverified :
          (item now : MigrationItem)
          → item ≡ now
          → is_terminal item.state ≡ false
          → Seen run K old tt now
          → (now.state ≡ ItemState.verifying) × IsConfirmed run K old
      unverified item now same e (inl seen) = seen
      unverified item now same e (inr gone) =
          absurd (not_both (subst (λ i. is_terminal i.state ≡ false) same e) (ap is_terminal gone))

      trashed :
          (item now : MigrationItem)
          → item ≡ now
          → is_terminal item.state ≡ true
          → Seen run K old tt now
          → now.state ≡ ItemState.skipped_trashed
      trashed item now same e (inl seen) =
          absurd (not_both (ap is_terminal seen.0) (subst (λ i. is_terminal i.state ≡ true) same e))
      trashed item now same e (inr gone) = gone

      answered :
          (item now : MigrationItem)
          → item.state ≡ now.state
          → is_terminal item.state ≡ true
          → now.state ≡ ItemState.skipped_trashed
          → Answers run K old item.state now
      answered item now same e gone =
          (sym same, e, λ v. absurd (not_verified_state (sym gone ∙ sym same ∙ v)))

  verify_and_close_triple :
      Triple K (Stops run K old) (At old is_verifiable) (verify_and_close run) (Answers run K old)
  unfolding verify_and_close
  verify_and_close_triple =
      handle_rule (verify_ownership_triple run stable old) (λ _. close_triple) finalize_triple

  act_triple :
      (action : PrepareAction)
      → Triple K (Stops run K old) (Prepared old action) (act run action) (Answers run K old)
  unfolding act every
  act_triple (PrepareAction.done state) =
      return_rule state
        (λ item h. (h.0, skipped_final state h.1, λ v. absurd (skipped_not_verified state h.1 v)))
  act_triple PrepareAction.verify_only =
      before verify_and_close_triple
        (λ item h. (within (same_state ItemState.verifying) is_verifiable refl item.state h.0, h.1))
  act_triple (PrepareAction.accept id) =
      handle_rule (accept_ownership_triple run stable old id) (λ _. verify_and_close_triple)
        finalize_triple

  -- From a startable state a step never trips over the transition table; what it answers is a final
  -- state that the item is in; an item that it answers as verified was confirmed; and after a
  -- failure the store has the item at rest.
  pub transfer_held_triple :
      Triple K (Stops run K old) (At old is_startable) (transfer_held run) (Answers run K old)
  unfolding transfer_held every is_terminal
  transfer_held_triple = bind_rule held_rule λ item.
      if_rule (is_terminal item.state)
        (λ e. return_rule item.state (λ now h. absurd (
          not_both (startable_open now.state h.0.0)
            (subst (λ i. is_terminal i.state ≡ true) h.1 e))))
        λ _.
          before (handle_rule (reconcile_triple run stable old) act_triple finalize_triple)
            (λ _ h. h.0)
