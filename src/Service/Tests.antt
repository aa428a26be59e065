-- ===== src/Service/Tests.antt =====
-- The start of the program with two jobs that were at work, in a store of two jobs.
use gdom.Base.{
  ℕ, ◌≡◌, refl, [], ◌∷◌, Option, none, some, ok, err, ◌==◌, ==_iff, if◌then◌else◌, arith, true, ap,
  any, Result,
}
use gdom.Base.State.{◌>>=◌, handle, settle, return, throw}
use gdom.Base.Rules.{Leads, if_rule}
use gdom.Job.Status.{JobStatus, is_unfinished_mutation}
use gdom.Job.Types.{MigrationJob}
use gdom.Job.Tests.{new}
use gdom.Job.Scanning.{pause_scanning}
use gdom.Job.Transfer.{require_auth, pause_transfer, set_last_error}
use gdom.Queue.Errors.{JobServiceError}
use gdom.Transfer.Types.{TransferHalt, TransferAccountRole}
use gdom.Service.Startup.{
  StartupPorts, changed, revalidate_tokens, apply_checkpoint_auth_halt, pause_after, looked_at,
  require_tokens, pause_scan, reconcile_mutation, reconcile_job, reconcile_jobs,
  reconcile_on_startup, outcome_of, proceed, account_of,
}
use gdom.Service.Laws.{IsStartup}
use gdom.Service.Rested.{IsLeft, reconcile_on_startup-AreLeft}

-- The jobs 1 and 2.
abbrev Jobs : Type 0
Jobs = MigrationJob × MigrationJob

abbrev one : Jobs → MigrationJob
one jobs = record jobs.0 { id = 1 }

abbrev two : Jobs → MigrationJob
two jobs = record jobs.1 { id = 2 }

abbrev stored : Jobs → ℕ → Option MigrationJob
stored jobs id = if 1 == id then some (one jobs) else if 2 == id then some (two jobs) else none

abbrev put : MigrationJob → Jobs → Result JobServiceError (Unit {0}) × Jobs
put job =
    if 1 == job.id
    then (λ jobs. (ok tt, (job, jobs.1)))
    else if 2 == job.id
    then (λ jobs. (ok tt, (jobs.0, job)))
    else (λ jobs. (err (JobServiceError.job_not_found job.id), jobs))

abbrev ports : StartupPorts Jobs
ports = record {
  clear_mutation_leases = λ w. (ok tt, w);
  list_jobs = λ w. (ok (one w ∷ two w ∷ []), w);
  get_access_token = λ account w. (ok "token", w);
  reconcile_job_items =
      λ job w. (ok (some (TransferHalt.auth_required "signed out" TransferAccountRole.target)), w);
  mark_reauth_required = λ account w. (ok tt, w);
  persist_status = λ job previous w. put job w;
  describe = λ e. "error";
}

puts :
    (job : MigrationJob) (w : Jobs)
    → Leads
        (λ _ _. Unit {0})
        (put job)
        w
        (λ _ after. (id : ℕ) → stored after id ≡ (if job.id == id then some job else stored w id))
puts job w =
    if_rule (1 == job.id)
      (λ is_one. record {
        comes = λ id. ground (
          arith,
          (==_iff 1 job.id).0 is_one,
          ap (λ (n : ℕ). record job { id = n }) ((==_iff 1 job.id).0 is_one),
        );
      })
      (λ not_one.
        if_rule (2 == job.id)
          (λ is_two. record {
            comes = λ id. ground (
              arith,
              (==_iff 2 job.id).0 is_two,
              ap (λ (n : ℕ). record job { id = n }) ((==_iff 2 job.id).0 is_two),
            );
          })
          (λ neither. record { comes = tt }))

listed :
    (w : Jobs) (id : ℕ) (job : MigrationJob)
    → stored w id ≡ some job
    → any (λ (found : MigrationJob). found.id == id) (one w ∷ two w ∷ []) ≡ true
listed w id job h = ground arith

startup : IsStartup ports stored
startup = record {
  clear_mutation_leases = λ w. record { comes = λ id. refl };
  get_access_token = λ account w. record { comes = λ id. refl };
  reconcile_job_items = λ job w. record { comes = λ id. refl };
  mark_reauth_required = λ account w. record { comes = λ id. refl };
  persist_status = λ job previous w. puts job w;
  list_jobs = λ w. record { comes = ((λ id. refl), ((refl, (refl, tt)), listed w)) };
}

abbrev before : Jobs
before = (
  record new { id = 1; status = JobStatus.scanning },
  record new { id = 2; status = JobStatus.running },
)

abbrev after : Jobs
after = (
  record new { id = 1; status = JobStatus.paused },
  record new { id = 2; status = JobStatus.auth_required; last_error = some "signed out" },
)

started : reconcile_on_startup ports before ≡ (ok tt, after)
unfolding reconcile_on_startup reconcile_jobs reconcile_job changed revalidate_tokens looked_at
    pause_after pause_scan reconcile_mutation require_tokens apply_checkpoint_auth_halt outcome_of
    proceed account_of pause_scanning require_auth pause_transfer set_last_error
    is_unfinished_mutation ◌>>=◌ handle settle return throw
started = refl

-- The second job, whose transfer was running, waits for the account.
reconcile_on_startup-AreLeft_example :
    IsLeft (stored (reconcile_on_startup ports before).1 2) (two before)
reconcile_on_startup-AreLeft_example =
    reconcile_on_startup-AreLeft ports stored startup before (ap (λ r. r.0) started) (two before)
      refl
