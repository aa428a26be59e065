-- ===== src/Transfer/Guarantees.antt =====
-- What the caller of `transfer_one` may rely on, whatever Drive, the store and the clock do.
use gdom.Base.{◌≡◌, refl, subst, true, Result, ok, err}
use gdom.Item.State.{ItemState, MigrationItem, is_terminal}
use gdom.Transfer.Types.{TransferRun, StepError}
use gdom.Transfer.Item.{transfer_held, transfer_one}
use gdom.Transfer.Reached.{Reached, here, Reached-IsStable}
use gdom.Transfer.Hoare.{Ends}
use gdom.Transfer.Table.{is_startable, is_sound_stop}
use gdom.Transfer.Soundness.{IsConfirmed}
use gdom.Transfer.Outcome.{Stops, Answers, IsGivenUp, transfer_held_triple}

module _ {W : Type 0} (run : TransferRun W) (item : MigrationItem) (w : W)
    (startable : is_startable item.state ≡ true) where
  ends :
      (r : Result StepError ItemState)
      → (transfer_one run item w).0 ≡ r
      → Ends
          (Stops run (Reached run w) item)
          (Answers run (Reached run w) item)
          r
          (transfer_held run (item, w)).1.0
  unfolding transfer_one
  ends r e =
      subst
        (λ r.
          Ends (Stops run (Reached run w) item) (Answers run (Reached run w) item) r
            (transfer_held run (item, w)).1.0)
        e
        ((transfer_held_triple run (Reached-IsStable run w) item).holds item w here
          (startable, record { same_id = refl; same_file = refl; same_original_parents = refl })).1

  -- If a step that starts from a startable state (eligible, pending_owner_required, accept_required,
  -- accepting, transferred, verifying or retryable_failed) answers `verified`, then in a world that
  -- the step has come to, by calls of its own from the world that it started in, Drive's answer to the
  -- target's account shows the file with the target and not the source among its owners, not in the
  -- trash, and with the parents that it had.
  pub transfer_one-verified :
      (transfer_one run item w).0 ≡ ok ItemState.verified → IsConfirmed run (Reached run w) item
  transfer_one-verified e = (ends (ok ItemState.verified) e).2 refl

  -- If a step that starts from a startable state answers a state, the state is a final one.
  pub transfer_one-is_terminal :
      (state : ItemState) → (transfer_one run item w).0 ≡ ok state → is_terminal state ≡ true
  transfer_one-is_terminal state e = (ends (ok state) e).1

  -- An error of a step that starts from a startable state is never a refused transition,
  -- and never the halt for an exhausted list, which only the loop over the items answers.
  pub transfer_one_sound :
      (e : StepError) → (transfer_one run item w).0 ≡ err e → is_sound_stop e ≡ true
  transfer_one_sound e h = (ends (err e) h).0

  -- If a step that starts from a startable state fails, then in a world that it has come to the store
  -- accepted a row with the id, the file and the original parents of the item, in `retryable_failed` or
  -- in a final state.
  pub transfer_one-failed :
      (transfer_one run item w).0 ≡ err StepError.failed → IsGivenUp run (Reached run w) item
  transfer_one-failed e = (ends (err StepError.failed) e).1 refl
