-- ===== src/Transfer/Reached.antt =====
-- The worlds that a run can come to: what its ports make of the world that it started in.
use gdom.Base.{ℕ, String, ◌≡◌, some}
use gdom.Item.State.{MigrationItem}
use gdom.Transfer.Types.{TransferRun, JobRuntimeEvent}

-- A set of worlds that no call of a port leaves.
pub record IsStable {W : Type 0} (run : TransferRun W) (K : W → Type 0) : Type 0 where
  pub get_file : (token id : String) (w : W) → K w → K (run.drive_port.get_file token id w).1
  pub create_pending_owner :
      (token id email : String) (w : W)
      → K w
      → K (run.drive_port.create_pending_owner token id email w).1
  pub update_pending_owner :
      (token id permission : String) (w : W)
      → K w
      → K (run.drive_port.update_pending_owner token id permission w).1
  pub accept_ownership :
      (token id permission : String) (w : W)
      → K w
      → K (run.drive_port.accept_ownership token id permission w).1
  pub save_item : (item : MigrationItem) (w : W) → K w → K (run.store_port.save_item item w).1
  pub sleep : (secs : ℕ) (w : W) → K w → K (run.sleep secs w)
  pub jitter_secs : (w : W) → K w → K (run.jitter_secs w).1
  pub clock : (w : W) → K w → K (run.clock w).1
  pub emit :
      (sink : JobRuntimeEvent → W → W) (event : JobRuntimeEvent) (w : W)
      → run.events ≡ some sink
      → K w
      → K (sink event w)

module _ {W : Type 0} (run : TransferRun W) (start : W) where
  -- The worlds that calls of the ports of a step lead to, from the world that the step starts in.
  pub data Reached : W → Type 0 where
    here : Reached start
    looked :
        (token id : String) (w : W) → Reached w → Reached (run.drive_port.get_file token id w).1
    created :
        (token id email : String) (w : W)
        → Reached w
        → Reached (run.drive_port.create_pending_owner token id email w).1
    updated :
        (token id permission : String) (w : W)
        → Reached w
        → Reached (run.drive_port.update_pending_owner token id permission w).1
    accepted :
        (token id permission : String) (w : W)
        → Reached w
        → Reached (run.drive_port.accept_ownership token id permission w).1
    saved : (item : MigrationItem) (w : W) → Reached w → Reached (run.store_port.save_item item w).1
    slept : (secs : ℕ) (w : W) → Reached w → Reached (run.sleep secs w)
    drawn : (w : W) → Reached w → Reached (run.jitter_secs w).1
    timed : (w : W) → Reached w → Reached (run.clock w).1
    emitted :
        (sink : JobRuntimeEvent → W → W) (event : JobRuntimeEvent) (w : W)
        → run.events ≡ some sink
        → Reached w
        → Reached (sink event w)

  pub Reached-IsStable : IsStable run Reached
  Reached-IsStable = record {
    get_file = looked;
    create_pending_owner = created;
    update_pending_owner = updated;
    accept_ownership = accepted;
    save_item = saved;
    sleep = slept;
    jitter_secs = drawn;
    clock = timed;
    emit = emitted;
  }
