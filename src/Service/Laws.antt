-- ===== src/Service/Laws.antt =====
-- What the start of the program relies on, and what it is to leave of a job.
use gdom.Base.{◌≡◌, ℕ, Bool, true, false, Option, some, Result, any, All, ◌==◌, if◌then◌else◌}
use gdom.Base.Rules.{Leads}
use gdom.Job.Status.{JobStatus}
use gdom.Job.Types.{MigrationJob}
use gdom.Service.Startup.{StartupPorts}

-- Neither scanning nor in a mutation that is not finished.
abbrev pub is_at_rest : JobStatus → Bool
is_at_rest JobStatus.scanning = false
is_at_rest JobStatus.running_canary = false
is_at_rest JobStatus.running = false
is_at_rest JobStatus.pausing = false
is_at_rest JobStatus.cancelling = false
is_at_rest _ = true

-- The same job, but for its status, its place in the queue and its last error; and the very same where
-- it was at rest.
pub record IsSameJob (old new : MigrationJob) : Type 0 where
  pub same : new ≡ record old {
    status = new.status;
    queue_position = new.queue_position;
    last_error = new.last_error;
  }
  pub untouched : is_at_rest old.status ≡ true → new ≡ old

abbrev pub IsRested : MigrationJob → MigrationJob → Type 0
IsRested old new = IsSameJob old new × (is_at_rest new.status ≡ true)

-- A call that leaves the stored jobs alone.
abbrev pub Leaves :
    {W E A : Type 0} (stored : W → ℕ → Option MigrationJob) → (W → Result E A × W) → W → Type 0
Leaves stored m w =
    Leads (λ _ _. Unit {0}) m w (λ _ after. (id : ℕ) → stored after id ≡ stored w id)

-- What the start relies on: `persist_status` stores its job and no other, the other calls store none,
-- and `list_jobs` answers the stored jobs, each of them. `stored` is what the store has under an id.
pub record IsStartup {W : Type 0} (ports : StartupPorts W) (stored : W → ℕ → Option MigrationJob)
    : Type 0 where
  pub clear_mutation_leases : (w : W) → Leaves stored ports.clear_mutation_leases w
  pub get_access_token :
      (account : ℕ) (w : W)
      → Leads
          (λ _ after. (id : ℕ) → stored after id ≡ stored w id)
          (ports.get_access_token account)
          w
          (λ _ after. (id : ℕ) → stored after id ≡ stored w id)
  pub reconcile_job_items :
      (job : MigrationJob) (w : W)
      → Leads
          (λ _ after. (id : ℕ) → stored after id ≡ stored w id)
          (ports.reconcile_job_items job)
          w
          (λ _ after. (id : ℕ) → stored after id ≡ stored w id)
  pub mark_reauth_required :
      (account : ℕ) (w : W) → Leaves stored (ports.mark_reauth_required account) w
  pub persist_status :
      (job : MigrationJob) (previous : JobStatus) (w : W)
      → Leads
          (λ _ _. Unit {0})
          (ports.persist_status job previous)
          w
          (λ _ after. (id : ℕ) → stored after id ≡ (if job.id == id then some job else stored w id))
  pub list_jobs :
      (w : W)
      → Leads
          (λ _ _. Unit {0})
          ports.list_jobs
          w
          (λ jobs after.
            ((id : ℕ) → stored after id ≡ stored w id)
            × (All (λ (job : MigrationJob). stored w job.id ≡ some job) jobs
                × ((id : ℕ) (job : MigrationJob)
                    → stored w id ≡ some job
                    → any (λ (listed : MigrationJob). listed.id == id) jobs ≡ true)))
