-- ===== src/Service/Startup.antt =====
-- src-tauri/src/application/job_service.rs: `reconcile_on_startup`. The tokens, the store, the look at
-- the items of a job and the texts of errors are parameters over a world `W`; the update gate and the
-- leases, which are empty at the start, are left out.
use gdom.Base.{
  ℕ, String, List, [], ◌∷◌, Bool, true, false, Option, none, some, Result, ok, err, if◌then◌else◌,
}
use gdom.Base.State.{M, return, throw, handle, ◌>>=◌, ◌>>◌}
use gdom.Job.Status.{JobStatus, is_unfinished_mutation}
use gdom.Job.Types.{MigrationJob, JobOutcome}
use gdom.Job.Scanning.{pause_scanning}
use gdom.Job.Transfer.{require_auth, pause_transfer, set_last_error}
use gdom.Queue.Errors.{JobServiceError, of_job_error}
use gdom.Transfer.Types.{TransferHalt, TransferAccountRole}

pub record StartupPorts (W : Type 0) : Type 0 where
  pub clear_mutation_leases : M W JobServiceError (Unit {0})
  pub list_jobs : M W JobServiceError (List MigrationJob)
  pub get_access_token : ℕ → M W JobServiceError String
  pub reconcile_job_items : MigrationJob → M W JobServiceError (Option TransferHalt)
  pub mark_reauth_required : ℕ → M W JobServiceError (Unit {0})
  -- The job, the status before and the type of the event.
  pub persist_status : MigrationJob → JobStatus → M W JobServiceError (Unit {0})
  pub describe : JobServiceError → String

abbrev pub is_scanning : JobStatus → Bool
is_scanning JobStatus.scanning = true
is_scanning _ = false

module _ {W : Type 0} (ports : StartupPorts W) where
  abbrev pub Step : Type 0 → Type 0
  Step A = M W JobServiceError A

  -- `job.method()?`.
  unfoldable pub changed : JobOutcome → Step MigrationJob
  changed (job, ok _) = return job
  changed (job, err e) = throw (of_job_error e)

  unfoldable pub revalidate_tokens : MigrationJob → Step (Unit {0})
  revalidate_tokens job = do
    _ ← ports.get_access_token job.accounts.source
    _ ← ports.get_access_token job.accounts.target
    return tt

  unfoldable pub account_of : MigrationJob → TransferAccountRole → ℕ
  account_of job TransferAccountRole.source = job.accounts.source
  account_of job TransferAccountRole.target = job.accounts.target

  -- `let result = f().await;`.
  unfoldable pub outcome_of : {A : Type 0} → Step A → Step (Result JobServiceError A)
  outcome_of m = handle m (λ a. return (ok a)) (λ e. return (err e))

  -- `result?`.
  unfoldable pub proceed : {A B : Type 0} → Result JobServiceError A → Step B → Step B
  proceed (ok a) next = next
  proceed (err e) next = throw e

  -- The status is persisted whether or not the account could be marked.
  unfoldable pub apply_checkpoint_auth_halt :
      MigrationJob → TransferHalt → JobStatus → Step (Unit {0})
  unfolding changed account_of outcome_of proceed
  apply_checkpoint_auth_halt job (TransferHalt.auth_required message role) previous = do
    required ← changed (require_auth job message)
    marked ← outcome_of (ports.mark_reauth_required (account_of required role))
    stored ← outcome_of (ports.persist_status required previous)
    proceed marked (proceed stored (return tt))
  apply_checkpoint_auth_halt job _ previous =
      throw (JobServiceError.store_error "checkpoint reconciliation returned a non-auth halt")

  -- The end of a turn of the loop.
  unfoldable pub pause_after : JobStatus → MigrationJob → Step (Unit {0})
  unfolding changed
  pause_after previous job = do
    stopped ← changed (pause_transfer job)
    ports.persist_status stopped previous

  unfoldable pub looked_at : MigrationJob → Option TransferHalt → Step (Unit {0})
  unfolding apply_checkpoint_auth_halt pause_after
  looked_at job none = pause_after job.status job
  looked_at job (some halt) = apply_checkpoint_auth_halt job halt job.status

  unfoldable pub require_tokens : MigrationJob → JobServiceError → Step (Unit {0})
  unfolding changed
  require_tokens job e = do
    required ← changed (require_auth job (ports.describe e))
    ports.persist_status required job.status

  unfoldable pub pause_scan : MigrationJob → Step (Unit {0})
  unfolding changed
  pause_scan job = do
    stopped ← changed (pause_scanning job)
    ports.persist_status stopped job.status

  unfoldable pub reconcile_mutation : MigrationJob → Step (Unit {0})
  unfolding revalidate_tokens looked_at pause_after require_tokens
  reconcile_mutation job =
      handle (revalidate_tokens job)
        (λ _.
          handle (ports.reconcile_job_items job) (looked_at job)
            (λ e. pause_after job.status (set_last_error job (ports.describe e))))
        (require_tokens job)

  -- One turn of the loop over the jobs.
  unfoldable pub reconcile_job : MigrationJob → Step (Unit {0})
  unfolding pause_scan reconcile_mutation
  reconcile_job job =
      if is_scanning job.status
      then pause_scan job
      else if is_unfinished_mutation job.status
      then reconcile_mutation job
      else return tt

  unfoldable pub reconcile_jobs : List MigrationJob → Step (Unit {0})
  unfolding reconcile_job
  reconcile_jobs [] = return tt
  reconcile_jobs (job ∷ jobs) = do reconcile_job job; reconcile_jobs jobs

  unfoldable pub reconcile_on_startup : Step (Unit {0})
  unfolding reconcile_jobs
  reconcile_on_startup = do ports.clear_mutation_leases; jobs ← ports.list_jobs; reconcile_jobs jobs
