-- ===== src/Job/Histories.antt =====
-- What holds of a job over every history of calls: refusals, the lock of the scope, the end.
use gdom.Base.{
  ◌≡◌, refl, ◌≢◌, ◌⊎◌, inl, inr, Bool, true, false, List, [], ◌∷◌, ◌∙◌, ap, err, arith, any, not,
}
use gdom.Job.Status.{
  JobStatus, JobError, draft, running, completed, completed_with_errors, is_terminal,
}
use gdom.Job.Types.{MigrationJob}
use gdom.Job.Ops.{JobOp, apply_op, run_ops}

-- A call that is refused leaves every field of the job as it was.
pub apply_op-refused :
    (op : JobOp) (job : MigrationJob) {e : JobError}
    → (apply_op op job).1 ≡ err e
    → (apply_op op job).0 ≡ job
unfolding apply_op
apply_op-refused (JobOp.pause_scanning) job h = ground arith
apply_op-refused _ job h = ground arith

-- What a job migrates: between which accounts, and from which roots.
pub record HasSameScope (old new : MigrationJob) : Type 0 where
  pub same_accounts : new.accounts ≡ old.accounts
  pub same_snapshots : new.snapshots ≡ old.snapshots
  pub same_roots : new.roots ≡ old.roots

HasSameScope-trans : (a b c : MigrationJob) → HasSameScope a b → HasSameScope b c → HasSameScope a c
HasSameScope-trans a b c p q = record {
  same_accounts = q.same_accounts ∙ p.same_accounts;
  same_snapshots = q.same_snapshots ∙ p.same_snapshots;
  same_roots = q.same_roots ∙ p.same_roots;
}

apply_op-locked :
    (op : JobOp) (job : MigrationJob)
    → job.status ≢ draft
    → ((apply_op op job).0.status ≢ draft) × HasSameScope job (apply_op op job).0
unfolding apply_op
apply_op-locked (JobOp.pause_scanning) job h = ground arith
apply_op-locked _ job h = ground arith

-- Once a job has left the draft, no history changes its accounts, its snapshots or its roots, and
-- none makes it a draft again.
pub run_ops-locked :
    (ops : List JobOp) (job : MigrationJob)
    → job.status ≢ draft
    → ((run_ops ops job).status ≢ draft) × HasSameScope job (run_ops ops job)
unfolding run_ops
run_ops-locked [] job h =
    (h, record { same_accounts = refl; same_snapshots = refl; same_roots = refl })
run_ops-locked (op ∷ ops) job h =
    let (still, scope) = apply_op-locked op job h in
    let (last, scope') = run_ops-locked ops (apply_op op job).0 still in
    (
      last,
      HasSameScope-trans job (apply_op op job).0 (run_ops ops (apply_op op job).0) scope scope',
    )

-- The same job but for its place in the queue and its last error, which two setters write.
abbrev pub IsSettledAs : MigrationJob → MigrationJob → Type 0
IsSettledAs old new =
    new ≡ record old { queue_position = new.queue_position; last_error = new.last_error }

apply_op-IsSettledAs :
    (op : JobOp) (job : MigrationJob)
    → is_terminal job.status ≡ true
    → IsSettledAs job (apply_op op job).0
unfolding apply_op is_terminal
apply_op-IsSettledAs (JobOp.pause_scanning) job h = ground arith
apply_op-IsSettledAs _ job h = ground arith

-- A completed, failed or cancelled job is final: no history of calls changes any field of it but its
-- last error and its position in the queue, which `set_last_error` and `set_queue_position` write
-- without a look at the status.
pub run_ops-terminal :
    (ops : List JobOp) (job : MigrationJob)
    → is_terminal job.status ≡ true
    → IsSettledAs job (run_ops ops job)
unfolding run_ops
run_ops-terminal [] job h = refl
run_ops-terminal (op ∷ ops) job h =
    let once = apply_op-IsSettledAs op job h in
    let last = run_ops ops (apply_op op job).0 in
    run_ops-terminal ops (apply_op op job).0
      (ap (λ (j : MigrationJob). is_terminal j.status) once ∙ h)
    ∙ ap
        (λ (j : MigrationJob). record j {
          queue_position = last.queue_position;
          last_error = last.last_error;
        })
        once

-- Has reached the bulk run.
abbrev pub is_bulk : JobStatus → Bool
is_bulk running = true
is_bulk completed = true
is_bulk completed_with_errors = true
is_bulk _ = false

-- A call that admits the bulk run: the review's approval, or a resume past the canary.
abbrev pub admits_bulk : JobOp → Bool
admits_bulk JobOp.start_bulk = true
admits_bulk (JobOp.resume_transfer as_canary) = not as_canary
admits_bulk _ = false

apply_op-bulk :
    (op : JobOp) (job : MigrationJob)
    → is_bulk job.status ≡ false
    → (is_bulk (apply_op op job).0.status ≡ false) ⊎ (admits_bulk op ≡ true)
unfolding apply_op
apply_op-bulk (JobOp.pause_scanning) job h = ground arith
apply_op-bulk _ job h = ground arith

-- No job runs or completes its bulk transfer unless some call of the history admitted it.
pub run_ops-bulk_admitted :
    (ops : List JobOp) (job : MigrationJob)
    → is_bulk job.status ≡ false
    → is_bulk (run_ops ops job).status ≡ true
    → any admits_bulk ops ≡ true
unfolding run_ops
run_ops-bulk_admitted [] job h r = cc
run_ops-bulk_admitted (op ∷ ops) job h r = elim (apply_op-bulk op job h) [
  | inl still ↦ ground (arith, run_ops-bulk_admitted ops (apply_op op job).0 still r)
  | inr admitted ↦ ground arith
]
