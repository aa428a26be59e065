-- ===== src/Job/Tests.antt =====
-- Jobs of the tests, and the histories that the theorems on jobs are run on.
use gdom.Base.{
  some, pos, ℕ, ◌≡◌, ◌≢◌, ◌⊎◌, refl, true, false, none, List, [], ◌∷◌, ok, err, any, ◌↔◌,
}
use gdom.Job.Status.{
  draft, running_canary, running, completed, as_str, from_str, is_terminal, illegal_transition,
}
use gdom.Job.Types.{RootValidationStatus, MigrationRoot, AccountSnapshot, MigrationJob, new_job}
use gdom.Job.Ops.{JobOp, apply_op, run_ops}
use gdom.Job.Graph.{◌⟶◌, apply_op-⟶}
use gdom.Job.Invariant.{IsWellFormed, places_queued, run_ops-IsWellFormed}
use gdom.Job.Histories.{
  HasSameScope, IsSettledAs, apply_op-refused, run_ops-locked, run_ops-terminal,
  run_ops-bulk_admitted, admits_bulk, is_bulk,
}
use gdom.Job.Names.{from_str_iff}

abbrev account : ℕ → AccountSnapshot
account id = record {
  account_id = id;
  email = "a@example.com";
  display_name = "A";
  permission_id = "p";
}

abbrev root : MigrationRoot
root = record {
  id = 7;
  job_id = 1;
  root_file_id = "folder";
  root_name = "Folder";
  validation_status = RootValidationStatus.validated;
  created_at = "t0";
}

abbrev pub new : MigrationJob
new = record {
  id = 1;
  accounts = record { source = 10; target = 20 };
  snapshots = record { source = account 10; target = account 20 };
  status = draft;
  queue_position = none;
  canary_size = 5;
  created_at = "t0";
  started_at = none;
  completed_at = none;
  last_error = none;
  roots = [];
}

granted : new_job 1 (account 10) (account 20) "t0" ≡ ok new
unfolding new_job
granted = refl

abbrev migration : List JobOp
migration =
    JobOp.add_root_op root
    ∷ JobOp.start_scanning "t1"
    ∷ JobOp.complete_scanning
    ∷ JobOp.start_canary
    ∷ JobOp.complete_canary
    ∷ JobOp.start_bulk
    ∷ JobOp.complete_transfer "t2" false
    ∷ []

migrated : (run_ops migration new).status ≡ completed
unfolding run_ops apply_op
migrated = refl

abbrev queueing : List JobOp
queueing =
    JobOp.add_root_op root
    ∷ JobOp.start_scanning "t1"
    ∷ JobOp.complete_scanning
    ∷ JobOp.enqueue (pos 3)
    ∷ JobOp.set_queue_position (some (pos 1))
    ∷ JobOp.set_last_error "quota"
    ∷ JobOp.start_canary
    ∷ []

placed : places_queued queueing new ≡ true
unfolding apply_op
placed = refl

-- A scan, a stay in the queue at two places and a start leave it well formed.
run_ops-IsWellFormed_example : IsWellFormed (run_ops queueing new)
run_ops-IsWellFormed_example =
    run_ops-IsWellFormed 1 (account 10) (account 20) "t0" queueing granted placed

in_bulk : is_bulk (run_ops migration new).status ≡ true
unfolding run_ops apply_op
in_bulk = refl

-- The migration was admitted to the bulk run by one of its calls.
run_ops-bulk_admitted_example : any admits_bulk migration ≡ true
run_ops-bulk_admitted_example = run_ops-bulk_admitted migration new refl in_bulk

abbrev done : MigrationJob
done = record new { status = completed }

abbrev live : MigrationJob
live = record new { status = running_canary }

final : is_terminal completed ≡ true
unfolding is_terminal
final = refl

-- Nothing of the whole history changes a completed job, but for its error and its place.
run_ops-terminal_example : IsSettledAs done (run_ops migration done)
run_ops-terminal_example = run_ops-terminal migration done final

-- It changes no account and no root of a running one.
run_ops-locked_example :
    ((run_ops migration live).status ≢ draft) × HasSameScope live (run_ops migration live)
run_ops-locked_example = run_ops-locked migration live (λ e. cc)

no_bulk : (apply_op JobOp.start_bulk new).1 ≡ err illegal_transition
unfolding apply_op
no_bulk = refl

-- A draft that is refused the bulk run stays as it is.
apply_op-refused_example : (apply_op JobOp.start_bulk new).0 ≡ new
apply_op-refused_example = apply_op-refused JobOp.start_bulk new no_bulk

-- A running job that is cancelled follows an edge of the diagram.
apply_op-⟶_example :
    ((apply_op (JobOp.cancel_job "t3") live).0.status ≡ live.status)
    ⊎ (live.status ⟶ (apply_op (JobOp.cancel_job "t3") live).0.status)
apply_op-⟶_example = apply_op-⟶ (JobOp.cancel_job "t3") live

-- A stored name that is read.
from_str_example : (from_str "RUNNING" ≡ ok running) ↔ ("RUNNING" ≡ as_str running)
from_str_example = from_str_iff "RUNNING" running
