-- ===== src/Transfer/Verification.antt =====
-- The verification of an item: what it has seen when it answers, and where it leaves the item.
use gdom.Base.{
  ◌≡◌, refl, subst, sym, Bool, true, false, not, ◌&&◌, String, arith, ok, ℕ, zero, suc, ◌-◌, ◌⊎◌,
  inl, inr,
}
use gdom.Base.State.{◌>>◌, throw, modify, on_world}
use gdom.Item.State.{ItemState, MigrationItem, can_transition_to, same_state}
use gdom.Drive.Types.{DriveFileSnapshot}
use gdom.Backoff.{max_retry_attempts}
use gdom.Transfer.Types.{TransferRun, TransferPhase, StepOutcome}
use gdom.Transfer.Steps.{Step, is_owner, same_parents, back_off}
use gdom.Transfer.Item.{
  awaits_accept, accept_ownership, verify_once, verify_loop, verify_ownership, not_transferred,
  not_verified,
}
use gdom.Transfer.Reached.{IsStable}
use gdom.Transfer.Hoare.{
  Triple, bind_rule, return_rule, throw_rule, held_rule, modify_rule, before, after, if_rule,
}
use gdom.Transfer.Rules.{retry_rule, back_off-kept}
use gdom.Transfer.Table.{every, within, may_fail, SameIdentity, At, IsSafe}
use gdom.Transfer.Parts.{advance_triple, retry_triple, classify_safe}
use gdom.Transfer.Soundness.{IsConfirmed, same_state-eq}

-- Ready to be verified: `transferred`, or `verifying` already.
abbrev pub is_verifiable : ItemState → Bool
is_verifiable ItemState.transferred = true
is_verifiable ItemState.verifying = true
is_verifiable _ = false

-- How a verification that does not fail ends: with the item confirmed, or found trashed.
abbrev pub Seen :
    {W : Type 0} → TransferRun W → (W → Type 0) → MigrationItem → Unit {0} → MigrationItem → Type 0
Seen run K old _ item =
    ((item.state ≡ ItemState.verifying) × IsConfirmed run K old)
    ⊎ (item.state ≡ ItemState.skipped_trashed)

module _ {W : Type 0} (run : TransferRun W) {K : W → Type 0} (stable : IsStable run K)
    (old : MigrationItem) where
  pub accept_ownership_triple :
      (id : String)
      → Triple K
          (IsSafe old)
          (At old awaits_accept)
          (accept_ownership run id)
          (λ _. At old is_verifiable)
  unfolding accept_ownership can_transition_to every
  accept_ownership_triple id =
      bind_rule (advance_triple run stable old awaits_accept ItemState.accepting refl refl) λ _.
        bind_rule held_rule λ item.
          bind_rule
            (before
              (retry_triple run stable old (same_state ItemState.accepting) _ _
                (stable.accept_ownership _ _ _) refl)
              (λ _ h. h.0))
            λ _.
              after
                (before
                  (advance_triple run stable old (same_state ItemState.accepting)
                    ItemState.transferred refl refl)
                  (λ _ h. h.0))
                (λ _ item h. (
                  within (same_state ItemState.transferred) is_verifiable refl item.state h.0,
                  h.1,
                ))

  -- The answer that the loop takes for a confirmation is one.
  confirm :
      (item : MigrationItem) (snapshot : DriveFileSnapshot) (w : W)
      → K w
      → SameIdentity old item
      → (run.drive_port.get_file run.target_token item.file_id w).0 ≡ ok snapshot
      → snapshot.trashed ≡ false
      → (is_owner snapshot.owners run.target_permission_id
          && not (is_owner snapshot.owners run.source_permission_id)
          && same_parents item.original_parent_ids snapshot.parents)
        ≡ true
      → IsConfirmed run K old
  confirm item snapshot w k same looked kept h = record {
    world = w;
    within = k;
    snapshot = snapshot;
    looked =
        subst (λ id. (run.drive_port.get_file run.target_token id w).0 ≡ ok snapshot) same.same_file
          looked;
    kept = kept;
    target_owns = ground arith;
    source_gone = ground arith;
    parents_kept =
        subst (λ ps. same_parents ps snapshot.parents ≡ true) same.same_original_parents
          (ground arith);
  }

  verify_once_triple :
      (again : Step W StepOutcome (Unit {0}))
      → Triple K (IsSafe old) (At old (same_state ItemState.verifying)) again (Seen run K old)
      → Triple K
          (IsSafe old)
          (At old (same_state ItemState.verifying))
          (verify_once run again)
          (Seen run K old)
  unfolding verify_once can_transition_to every
  verify_once_triple again next = bind_rule held_rule λ item.
      bind_rule
        (retry_rule run stable TransferPhase.verify
          (run.drive_port.get_file run.target_token item.file_id) (stable.get_file _ _)
          (λ failure now h. (
            classify_safe failure TransferPhase.verify,
            (within (same_state ItemState.verifying) may_fail refl now.state h.0.0, h.0.1),
          )))
        λ snapshot.
          if_rule snapshot.trashed
            (λ _.
              after
                (before
                  (advance_triple run stable old (same_state ItemState.verifying)
                    ItemState.skipped_trashed refl refl)
                  (λ _ h. h.0.0))
                (λ _ now h. inr (sym (same_state-eq ItemState.skipped_trashed now.state h.0))))
            λ kept.
              if_rule
                (is_owner snapshot.owners run.target_permission_id
                  && not (is_owner snapshot.owners run.source_permission_id)
                  && same_parents item.original_parent_ids snapshot.parents)
                (λ seen. return_rule tt (λ now h. inl (
                  sym (same_state-eq ItemState.verifying now.state h.0.0.0),
                  confirm item snapshot h.1.0 h.1.1.0 (subst (SameIdentity old) (sym h.0.1) h.0.0.1)
                      h.1.1.1 kept seen,
                )))
                λ _.
                  if_rule
                    (not (is_owner snapshot.owners run.target_permission_id)
                      && not (is_owner snapshot.owners run.source_permission_id))
                    (λ _. throw_rule (StepOutcome.permanent not_transferred) (λ now h. (
                      refl,
                      (
                        within (same_state ItemState.verifying) may_fail refl now.state h.0.0.0,
                        h.0.0.1,
                      ),
                    )))
                    λ _. before next (λ _ h. h.0.0)

  verify_loop_triple :
      (left : ℕ)
      → Triple K
          (IsSafe old)
          (At old (same_state ItemState.verifying))
          (verify_loop run left)
          (Seen run K old)
  unfolding verify_loop every
  verify_loop_triple zero = verify_once_triple (throw (StepOutcome.retryable not_verified)) (
      throw_rule (StepOutcome.retryable not_verified) (λ now h.
        (refl, (within (same_state ItemState.verifying) may_fail refl now.state h.0, h.1))))
  verify_loop_triple (suc left) =
      verify_once_triple
        (on_world (modify (back_off run (max_retry_attempts - suc left))) >> verify_loop run left)
        (bind_rule (modify_rule _ (back_off-kept run stable _)) λ _. verify_loop_triple left)

  pub verify_ownership_triple :
      Triple K (IsSafe old) (At old is_verifiable) (verify_ownership run) (Seen run K old)
  unfolding verify_ownership can_transition_to every
  verify_ownership_triple =
      bind_rule (advance_triple run stable old is_verifiable ItemState.verifying refl refl)
        λ _. verify_loop_triple max_retry_attempts
