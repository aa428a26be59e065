-- ===== src/Job/Ops.antt =====
-- The methods of a `MigrationJob` that change it, as one type, and a history of such calls.
use gdom.Base.{ℕ, ℤ, String, Bool, Option, ok, List, [], ◌∷◌}
use gdom.Job.Status.{JobStatus}
use gdom.Job.Types.{MigrationRoot, AccountSnapshot, MigrationJob, JobOutcome}
use gdom.Job.Roots.{add_root, remove_root, change_accounts}
use gdom.Job.Scanning
use gdom.Job.Transfer

pub data JobOp : Type 0 where
  change_accounts_op : AccountSnapshot → AccountSnapshot → JobOp
  add_root_op : MigrationRoot → JobOp
  remove_root_op : ℕ → JobOp
  start_scanning : String → JobOp
  pause_scanning complete_scanning : JobOp
  fail_scanning : String → JobOp
  start_canary complete_canary start_bulk : JobOp
  complete_transfer : String → Bool → JobOp
  pause_sharing_rate_limit wait_for_quota require_auth : String → JobOp
  pause_transfer : JobOp
  resume_transfer : Bool → JobOp
  enqueue : ℤ → JobOp
  remove_from_queue : JobStatus → JobOp
  cancel_job : String → JobOp
  -- The setters, which cannot fail.
  set_queue_position : Option ℤ → JobOp
  set_last_error : String → JobOp

unfoldable pub apply_op : JobOp → MigrationJob → JobOutcome
unfolding change_accounts add_root remove_root Scanning.start_scanning Scanning.pause_scanning
    Scanning.complete_scanning Scanning.fail_scanning Transfer.start_canary Transfer.complete_canary
    Transfer.start_bulk Transfer.complete_transfer Transfer.pause_sharing_rate_limit
    Transfer.wait_for_quota Transfer.require_auth Transfer.pause_transfer Transfer.resume_transfer
    Transfer.enqueue Transfer.remove_from_queue Transfer.cancel_job Transfer.set_queue_position
    Transfer.set_last_error
apply_op (change_accounts_op source target) job = change_accounts job source target
apply_op (add_root_op root) job = add_root job root
apply_op (remove_root_op root_id) job = remove_root job root_id
apply_op (start_scanning at) job = Scanning.start_scanning job at
apply_op pause_scanning job = Scanning.pause_scanning job
apply_op complete_scanning job = Scanning.complete_scanning job
apply_op (fail_scanning error) job = Scanning.fail_scanning job error
apply_op start_canary job = Transfer.start_canary job
apply_op complete_canary job = Transfer.complete_canary job
apply_op start_bulk job = Transfer.start_bulk job
apply_op (complete_transfer at had_errors) job = Transfer.complete_transfer job at had_errors
apply_op (pause_sharing_rate_limit error) job = Transfer.pause_sharing_rate_limit job error
apply_op (wait_for_quota error) job = Transfer.wait_for_quota job error
apply_op (require_auth error) job = Transfer.require_auth job error
apply_op pause_transfer job = Transfer.pause_transfer job
apply_op (resume_transfer as_canary) job = Transfer.resume_transfer job as_canary
apply_op (enqueue position) job = Transfer.enqueue job position
apply_op (remove_from_queue restored) job = Transfer.remove_from_queue job restored
apply_op (cancel_job at) job = Transfer.cancel_job job at
apply_op (set_queue_position position) job = (Transfer.set_queue_position job position, ok tt)
apply_op (set_last_error error) job = (Transfer.set_last_error job error, ok tt)

-- A history: each call answers or refuses, and the next one finds the job as it was left.
unfoldable pub run_ops : List JobOp → MigrationJob → MigrationJob
run_ops [] job = job
run_ops (op ∷ ops) job = run_ops ops (apply_op op job).0
