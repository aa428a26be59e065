-- ===== src/Transfer/Parts.antt =====
-- The parts of a step, one triple each: from which states a part may start, and in which it ends.
use gdom.Drive.Types.{DrivePermission}
use gdom.Base.{ap, none, some, ◌≡◌, ◌∙◌, refl, Bool, true, false, String, arith, ok, Option, subst}
use gdom.Base.State.{M}
use gdom.Item.State.{ItemState, MigrationItem, can_transition_to, same_state, is_skipped}
use gdom.Drive.Failure.{DriveTransferFailure}
use gdom.Transfer.Types.{TransferRun, TransferPhase, StepOutcome, PrepareAction}
use gdom.Transfer.Steps.{apply_state_outcome, persist_outcome, retry, classify}
use gdom.Transfer.Item.{
  advance, record_permission, accept_path, accept_from_required, accept_from_start,
  advance_to_accept_required, accept_with, accept_existing, raise_existing, prepare_existing,
  prepare_new, prepare_found, awaits_accept,
}
use gdom.Transfer.Reached.{IsStable}
use gdom.Transfer.Hoare.{
  Triple, bind_rule, return_rule, held_rule, change_rule, before, after, if_rule,
}
use gdom.Transfer.Rules.{apply_rule, retry_rule, store_rule}
use gdom.Transfer.Table.{
  every, Within, within, may_fail, is_unprepared, SameIdentity, At, IsSafe, is_sound,
}

pub classify_safe :
    (failure : DriveTransferFailure) (phase : TransferPhase)
    → is_sound (classify failure phase) ≡ true
unfolding classify
classify_safe failure phase = ground arith

-- How the preparation ends: with a final state, in `verifying`, or with a permission to accept.
abbrev pub Prepared : MigrationItem → PrepareAction → MigrationItem → Type 0
Prepared old (PrepareAction.done state) item =
    (item.state ≡ state) × (is_skipped state ≡ true) × SameIdentity old item
Prepared old PrepareAction.verify_only item = At old (same_state ItemState.verifying) item
Prepared old (PrepareAction.accept id) item = At old awaits_accept item

same_state_refl : (s : ItemState) → same_state s s ≡ true
same_state_refl s = ground arith

both : {b : Bool} → b ≡ false → b ≡ true → ⊥
both e h = cc

module _ {W : Type 0} (run : TransferRun W) {K : W → Type 0} (stable : IsStable run K)
    (old : MigrationItem) where
  pub keep_identity :
      (item item' : MigrationItem)
      → SameIdentity old item
      → item'.id ≡ item.id
      → item'.file_id ≡ item.file_id
      → item'.original_parent_ids ≡ item.original_parent_ids
      → SameIdentity old item'
  keep_identity item item' h d e f = record {
    same_id = d ∙ h.same_id;
    same_file = e ∙ h.same_file;
    same_original_parents = f ∙ h.same_original_parents;
  }

  pub persist_outcome_triple :
      (p : ItemState → Bool)
      → Within p may_fail
      → Triple K (IsSafe old) (At old p) (persist_outcome run) (λ _. At old p)
  unfolding persist_outcome
  persist_outcome_triple p fails = bind_rule held_rule λ item.
      after
        (store_rule run stable StepOutcome.store
          (λ e item h. (refl, (within p may_fail fails item.state h.0.0, h.0.1))) item)
        (λ _ item h. h.0.0)

  pub retry_triple :
      {A : Type 0} (p : ItemState → Bool) (phase : TransferPhase) (op : M W DriveTransferFailure A)
      → ((w : W) → K w → K (op w).1)
      → Within p may_fail
      → Triple K
          (IsSafe old)
          (At old p)
          (retry run phase op)
          (λ a item. At old p item × ((w : W) × (K w × ((op w).0 ≡ ok a))))
  retry_triple p phase op keeps fails = retry_rule run stable phase op keeps (λ failure item h.
      (classify_safe failure phase, (within p may_fail fails item.state h.0, h.1)))

  pub apply_triple :
      (p : ItemState → Bool) (next : ItemState)
      → Within p (λ s. can_transition_to s next)
      → Triple K
          (IsSafe old)
          (At old p)
          (apply_state_outcome run next)
          (λ _. At old (same_state next))
  unfolding apply_state_outcome
  apply_triple p next permitted =
      apply_rule run stable StepOutcome.invalid_state next
        (λ item last_error at h e. (same_state_refl next, keep_identity item _ h.1 refl refl refl))
        (λ item h e.
          absurd (both e (within p (λ s. can_transition_to s next) permitted item.state h.0)))

  pub advance_triple :
      (p : ItemState → Bool) (next : ItemState)
      → Within p (λ s. can_transition_to s next)
      → Within (same_state next) may_fail
      → Triple K (IsSafe old) (At old p) (advance run next) (λ _. At old (same_state next))
  unfolding advance
  advance_triple p next permitted fails =
      bind_rule (apply_triple p next permitted) λ _. persist_outcome_triple (same_state next) fails

  pub record_triple :
      (p : ItemState → Bool) (id : String)
      → Triple K (IsSafe old) (At old p) (record_permission run id) (λ _. At old p)
  unfolding record_permission
  record_triple p id = change_rule _ λ item h. (h.0, keep_identity item _ h.1 refl refl refl)

  pub from_required_triple :
      Triple K
        (IsSafe old)
        (At old (same_state ItemState.pending_owner_required))
        (accept_from_required run)
        (λ _. At old (same_state ItemState.accept_required))
  unfolding accept_from_required can_transition_to every
  from_required_triple =
      bind_rule (apply_triple _ ItemState.pending_owner_created refl) λ _.
        apply_triple (same_state ItemState.pending_owner_created) ItemState.accept_required refl

  pub from_start_triple :
      (p : ItemState → Bool)
      → Within p (λ s. can_transition_to s ItemState.pending_owner_required)
      → Triple K
          (IsSafe old)
          (At old p)
          (accept_from_start run)
          (λ _. At old (same_state ItemState.accept_required))
  unfolding accept_from_start
  from_start_triple p permitted =
      bind_rule (apply_triple p ItemState.pending_owner_required permitted)
        λ _. from_required_triple

  -- From a state with a path, the item comes to `accept_required`.
  accept_path_triple :
      (state : ItemState)
      → Triple K
          (IsSafe old)
          (λ item. At old is_unprepared item × (state ≡ item.state))
          (accept_path run state)
          (λ _. At old (same_state ItemState.accept_required))
  unfolding accept_path can_transition_to every
  accept_path_triple ItemState.eligible =
      before (from_start_triple (same_state ItemState.eligible) refl)
        (λ item h. (subst (λ s. same_state ItemState.eligible s ≡ true) h.1 refl, h.0.1))
  accept_path_triple ItemState.retryable_failed =
      before (from_start_triple (same_state ItemState.retryable_failed) refl)
        (λ item h. (subst (λ s. same_state ItemState.retryable_failed s ≡ true) h.1 refl, h.0.1))
  accept_path_triple ItemState.pending_owner_required = before from_required_triple (λ item h.
      (subst (λ s. same_state ItemState.pending_owner_required s ≡ true) h.1 refl, h.0.1))
  accept_path_triple _ = record { holds = λ item w k h. absurd (ground arith) }

  advance_to_accept_triple :
      (p : ItemState → Bool)
      → Within p is_unprepared
      → Triple K
          (IsSafe old)
          (At old p)
          (advance_to_accept_required run)
          (λ _. At old (same_state ItemState.accept_required))
  unfolding advance_to_accept_required
  advance_to_accept_triple p unprepared = bind_rule held_rule λ item.
      before (accept_path_triple item.state) (λ now h.
        ((within p is_unprepared unprepared now.state h.0.0, h.0.1), ap (λ i. i.state) h.1))

  accept_existing_triple :
      (p : ItemState → Bool) (existing : DrivePermission)
      → Within p is_unprepared
      → Triple K (IsSafe old) (At old p) (accept_existing run existing) (Prepared old)
  unfolding accept_existing can_transition_to every
  accept_existing_triple p existing unprepared =
      bind_rule (advance_to_accept_triple p unprepared) λ _.
        bind_rule (persist_outcome_triple (same_state ItemState.accept_required) refl) λ _.
          return_rule (PrepareAction.accept existing.id) (λ item h.
            (within (same_state ItemState.accept_required) awaits_accept refl item.state h.0, h.1))

  accept_with_triple :
      (p : ItemState → Bool) (id : String)
      → Within p is_unprepared
      → Triple K (IsSafe old) (At old p) (accept_with run id) (Prepared old)
  unfolding accept_with can_transition_to every
  accept_with_triple p id unprepared = bind_rule (record_triple p id) λ _.
      bind_rule (advance_to_accept_triple p unprepared) λ _.
        bind_rule (persist_outcome_triple (same_state ItemState.accept_required) refl) λ _.
          return_rule (PrepareAction.accept id) (λ item h.
            (within (same_state ItemState.accept_required) awaits_accept refl item.state h.0, h.1))

  raise_existing_triple :
      (existing : DrivePermission)
      → Triple K (IsSafe old) (At old is_unprepared) (raise_existing run existing) (Prepared old)
  unfolding raise_existing can_transition_to every
  raise_existing_triple existing =
      bind_rule (advance_triple is_unprepared ItemState.pending_owner_required refl refl) λ _.
        bind_rule held_rule λ item.
          before
            (bind_rule
              (retry_triple (same_state ItemState.pending_owner_required) _ _
                (stable.update_pending_owner _ _ _) refl)
              λ updated.
                before
                  (accept_with_triple (same_state ItemState.pending_owner_required) updated.id refl)
                  (λ _ h. h.0))
            (λ _ h. h.0)

  prepare_new_triple : Triple K (IsSafe old) (At old is_unprepared) (prepare_new run) (Prepared old)
  unfolding prepare_new can_transition_to every
  prepare_new_triple =
      bind_rule (advance_triple is_unprepared ItemState.pending_owner_required refl refl) λ _.
        bind_rule held_rule λ item.
          before
            (bind_rule
              (retry_triple (same_state ItemState.pending_owner_required) _ _
                (stable.create_pending_owner _ _ _) refl)
              λ created.
                before
                  (accept_with_triple (same_state ItemState.pending_owner_required) created.id refl)
                  (λ _ h. h.0))
            (λ _ h. h.0)

  prepare_existing_triple :
      (existing : DrivePermission)
      → Triple K (IsSafe old) (At old is_unprepared) (prepare_existing run existing) (Prepared old)
  unfolding prepare_existing every
  prepare_existing_triple existing = bind_rule (record_triple is_unprepared existing.id) λ _.
      if_rule _ (λ _. accept_existing_triple is_unprepared existing refl)
        (λ _. raise_existing_triple existing)

  pub prepare_found_triple :
      (found : Option DrivePermission)
      → Triple K (IsSafe old) (At old is_unprepared) (prepare_found run found) (Prepared old)
  unfolding prepare_found
  prepare_found_triple (some existing) = prepare_existing_triple existing
  prepare_found_triple none = prepare_new_triple
