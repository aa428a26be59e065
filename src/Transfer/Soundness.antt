-- ===== src/Transfer/Soundness.antt =====
-- What a step of the transfer promises, whatever Drive, the store and the clock do.
use gdom.Base.{
  is_some, ◌≡◌, refl, subst, sym, Bool, true, false, not, ◌&&◌, String, arith, ok, Option, none,
  some,
}
use gdom.Base.State.{◌>>◌, return}
use gdom.Item.State.{ItemState, MigrationItem, can_transition_to, same_state, is_skipped}
use gdom.Drive.Types.{DriveFileSnapshot}
use gdom.Transfer.Types.{TransferRun, StepOutcome, PrepareAction}
use gdom.Transfer.Steps.{is_owner, find_target_permission, same_parents}
use gdom.Transfer.Item.{
  awaits_accept, awaits_verification, advance, prepare, reconcile_and_prepare, accept_recorded,
  source_not_owner, missing_permission,
}
use gdom.Transfer.Reached.{IsStable}
use gdom.Transfer.Hoare.{Triple, bind_rule, return_rule, throw_rule, held_rule, before, if_rule}
use gdom.Transfer.Table.{every, Within, within, may_fail, is_startable, is_unprepared, At, IsSafe}
use gdom.Transfer.Parts.{Prepared, advance_triple, retry_triple, prepare_found_triple}

-- What the last look at Drive, through the target's account, must have shown of an item: the target
-- owns it, the source does not, it is not trashed, and it lies where it lay.
pub record IsConfirmed {W : Type 0} (run : TransferRun W) (K : W → Type 0) (item : MigrationItem)
    : Type 0 where
  pub world : W
  pub within : K world
  pub snapshot : DriveFileSnapshot
  pub looked : (run.drive_port.get_file run.target_token item.file_id world).0 ≡ ok snapshot
  pub kept : snapshot.trashed ≡ false
  pub target_owns : is_owner snapshot.owners run.target_permission_id ≡ true
  pub source_gone : is_owner snapshot.owners run.source_permission_id ≡ false
  pub parents_kept : same_parents item.original_parent_ids snapshot.parents ≡ true

pub same_state-eq : (s t : ItemState) → same_state s t ≡ true → s ≡ t
same_state-eq ItemState.discovered t h = ground arith
same_state-eq _ t h = ground arith

remaining :
    (s : ItemState)
    → is_startable s ≡ true
    → awaits_verification s ≡ false
    → awaits_accept s ≡ false
    → is_unprepared s ≡ true
remaining s h v a = ground arith

module _ {W : Type 0} (run : TransferRun W) {K : W → Type 0} (stable : IsStable run K)
    (old : MigrationItem) where
  finish_triple :
      (p : ItemState → Bool) (next : ItemState)
      → Within p (λ s. can_transition_to s next)
      → Within (same_state next) may_fail
      → is_skipped next ≡ true
      → Triple K
          (IsSafe old)
          (At old p)
          (advance run next >> return (PrepareAction.done next))
          (Prepared old)
  finish_triple p next permitted fails skipped =
      bind_rule (advance_triple run stable old p next permitted fails) λ _.
        return_rule (PrepareAction.done next)
          (λ item h. (sym (same_state-eq next item.state h.0), skipped, h.1))

  prepare_triple :
      (snapshot : DriveFileSnapshot)
      → Triple K (IsSafe old) (At old is_unprepared) (prepare run snapshot) (Prepared old)
  unfolding prepare can_transition_to every is_skipped
  prepare_triple snapshot =
      if_rule snapshot.trashed
        (λ _. finish_triple is_unprepared ItemState.skipped_trashed refl refl refl)
        λ _.
          if_rule (is_some snapshot.drive_id)
            (λ _. finish_triple is_unprepared ItemState.skipped_shared_drive refl refl refl)
            λ _.
              if_rule (target_owns && not source_owns)
                (λ _.
                  bind_rule
                    (advance_triple run stable old is_unprepared ItemState.verifying refl refl)
                    λ _. return_rule PrepareAction.verify_only (λ item h. h))
                λ _.
                  if_rule (not source_owns)
                    (λ _.
                      throw_rule (StepOutcome.permanent source_not_owner) (λ item h.
                        (refl, (within is_unprepared may_fail refl item.state h.0, h.1))))
                    λ _. prepare_found_triple run stable old (
                      find_target_permission snapshot.permissions run.target_email
                        run.target_permission_id)
    where
      target_owns : Bool
      target_owns = is_owner snapshot.owners run.target_permission_id

      source_owns : Bool
      source_owns = is_owner snapshot.owners run.source_permission_id

  accept_recorded_triple :
      (recorded : Option String)
      → Triple K (IsSafe old) (At old awaits_accept) (accept_recorded run recorded) (Prepared old)
  unfolding accept_recorded every
  accept_recorded_triple none =
      throw_rule (StepOutcome.permanent missing_permission)
        (λ item h. (refl, (within awaits_accept may_fail refl item.state h.0, h.1)))
  accept_recorded_triple (some id) = return_rule (PrepareAction.accept id) (λ item h. h)

  pub reconcile_triple :
      Triple K (IsSafe old) (At old is_startable) (reconcile_and_prepare run) (Prepared old)
  unfolding reconcile_and_prepare can_transition_to every
  reconcile_triple = bind_rule held_rule λ item.
      if_rule (awaits_verification item.state)
        (λ e.
          bind_rule
            (before
              (advance_triple run stable old awaits_verification ItemState.verifying refl refl)
              (λ now h. (subst (λ i. awaits_verification i.state ≡ true) h.1 e, h.0.1)))
            λ _. return_rule PrepareAction.verify_only (λ item h. h))
        λ e.
          if_rule (awaits_accept item.state)
            (λ f.
              before (accept_recorded_triple item.target_permission_id)
                (λ now h. (subst (λ i. awaits_accept i.state ≡ true) h.1 f, h.0.1)))
            λ f.
              bind_rule
                (before (retry_triple run stable old is_unprepared _ _ (stable.get_file _ _) refl)
                  (λ now h. (
                    remaining now.state h.0.0
                        (subst (λ i. awaits_verification i.state ≡ false) h.1 e)
                        (subst (λ i. awaits_accept i.state ≡ false) h.1 f),
                    h.0.1,
                  )))
                λ snapshot. before (prepare_triple snapshot) (λ _ h. h.0)
