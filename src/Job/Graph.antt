-- ===== src/Job/Graph.antt =====
-- The transition diagram of a job's status, and its agreement with the methods.
use gdom.Base.{◌≡◌, ◌⊎◌, arith, true, false}
use gdom.Job.Status.{
  JobStatus, draft, scanning, ready_for_review, running_canary, canary_review, queued, running,
  pausing, paused, cancelling, cancelled, completed, completed_with_errors, failed, auth_required,
  source_rate_limited, waiting_for_quota, is_terminal, is_transfer_resumable,
}
use gdom.Job.Types.{MigrationJob}
use gdom.Job.Ops.{JobOp, apply_op}

-- Has a transfer under way, or one that could be.
pub data IsLive : JobStatus → Type 0 where
  canary_live : IsLive running_canary
  bulk_live : IsLive running
  pausing_live : IsLive pausing
  cancelling_live : IsLive cancelling

infix 40 ◌⟶◌
pub data ◌⟶◌ : JobStatus → JobStatus → Type 0 where
  scan : draft ⟶ scanning
  rescan : paused ⟶ scanning
  hold_scan : scanning ⟶ paused
  scanned : scanning ⟶ ready_for_review
  scan_failed : scanning ⟶ failed
  paused_failed : paused ⟶ failed
  try_canary : ready_for_review ⟶ running_canary
  dequeue_canary : queued ⟶ running_canary
  canary_done : running_canary ⟶ canary_review
  bulk : canary_review ⟶ running
  finish : running ⟶ completed
  finish_with_errors : running ⟶ completed_with_errors
  limit_canary : running_canary ⟶ source_rate_limited
  limit_bulk : running ⟶ source_rate_limited
  quota_canary : running_canary ⟶ waiting_for_quota
  quota_bulk : running ⟶ waiting_for_quota
  lose_auth : {s : JobStatus} → IsLive s → s ⟶ auth_required
  lose_auth_idle : {s : JobStatus} → is_transfer_resumable s ≡ true → s ⟶ auth_required
  hold : {s : JobStatus} → IsLive s → s ⟶ paused
  resume_canary : {s : JobStatus} → is_transfer_resumable s ≡ true → s ⟶ running_canary
  resume_bulk : {s : JobStatus} → is_transfer_resumable s ≡ true → s ⟶ running
  queue : {s : JobStatus} → is_transfer_resumable s ≡ true → s ⟶ queued
  queue_ready : ready_for_review ⟶ queued
  queue_reviewed : canary_review ⟶ queued
  unqueue_ready : queued ⟶ ready_for_review
  unqueue_reviewed : queued ⟶ canary_review
  unqueue_paused : queued ⟶ paused
  cancel : {s : JobStatus} → is_terminal s ≡ false → s ⟶ cancelled

ruleset edges = (
  scan, rescan, hold_scan, scanned, scan_failed, paused_failed, try_canary, dequeue_canary,
  canary_done, bulk, finish, finish_with_errors, limit_canary, limit_bulk, quota_canary, quota_bulk,
  queue_ready, queue_reviewed,
)

ruleset unqueues = (unqueue_ready, unqueue_reviewed, unqueue_paused)

ruleset live = (canary_live, bulk_live, pausing_live, cancelling_live)

-- Every call of a method, refused or not, keeps the status or follows an edge of the diagram.
pub apply_op-⟶ :
    (op : JobOp) (job : MigrationJob)
    → ((apply_op op job).0.status ≡ job.status) ⊎ (job.status ⟶ (apply_op op job).0.status)
unfolding apply_op is_transfer_resumable is_terminal
apply_op-⟶ (JobOp.cancel_job _) job = grind (arith, cancel)
apply_op-⟶ (JobOp.remove_from_queue _) job = grind (arith, unqueues)
apply_op-⟶ (JobOp.resume_transfer _) job = grind (arith, resume_canary, resume_bulk)
apply_op-⟶ _ job = grind (arith, edges, live, lose_auth, lose_auth_idle, hold, queue)
