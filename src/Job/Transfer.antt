-- ===== src/Job/Transfer.antt =====
-- gdom-migration/src/job/transfer.rs: the transitions of the canary, the bulk run and the queue.
use gdom.Base.{ℤ, String, Bool, true, false, not, ◌||◌, Option, none, some, if◌then◌else◌}
use gdom.Job.Status.{
  JobStatus, ready_for_review, running_canary, canary_review, queued, running, pausing, paused,
  cancelling, cancelled, completed, completed_with_errors, failed, auth_required,
  source_rate_limited, waiting_for_quota, is_queued,
}
use gdom.Job.Types.{MigrationJob, JobOutcome}
use gdom.Job.Scanning.{done, illegal}

unfoldable pub start_canary : MigrationJob → JobOutcome
start_canary job = elim job.status [
  | ready_for_review ↦ done (record job { status = running_canary; queue_position = none })
  | queued ↦ done (record job { status = running_canary; queue_position = none })
  | running_canary ↦ done job
  | _ ↦ illegal job
]

unfoldable pub complete_canary : MigrationJob → JobOutcome
complete_canary job = elim job.status [
  | running_canary ↦ done (record job { status = canary_review })
  | canary_review ↦ done job
  | _ ↦ illegal job
]

unfoldable pub start_bulk : MigrationJob → JobOutcome
start_bulk job = elim job.status [
  | canary_review ↦ done (record job { status = running; queue_position = none })
  | running ↦ done job
  | _ ↦ illegal job
]

unfoldable pub complete_transfer : MigrationJob → String → Bool → JobOutcome
complete_transfer job completed_at had_errors = elim job.status [
  | running ↦ done (record job {
    status = if had_errors then completed_with_errors else completed;
    completed_at = some completed_at;
  })
  | completed ↦ done job
  | completed_with_errors ↦ done job
  | _ ↦ illegal job
]

unfoldable pub pause_sharing_rate_limit : MigrationJob → String → JobOutcome
pause_sharing_rate_limit job error =
    let limited = done (record job { status = source_rate_limited; last_error = some error }) in
    elim job.status [
      | running_canary ↦ limited
      | running ↦ limited
      | source_rate_limited ↦ done job
      | _ ↦ illegal job
    ]

unfoldable pub wait_for_quota : MigrationJob → String → JobOutcome
wait_for_quota job error =
    let waiting = done (record job { status = waiting_for_quota; last_error = some error }) in
    elim job.status [
      | running_canary ↦ waiting
      | running ↦ waiting
      | waiting_for_quota ↦ done job
      | _ ↦ illegal job
    ]

unfoldable pub require_auth : MigrationJob → String → JobOutcome
require_auth job error =
    let required =
      done
        (record job { status = auth_required; queue_position = none; last_error = some error }) in
    elim job.status [
      | running_canary ↦ required
      | running ↦ required
      | pausing ↦ required
      | cancelling ↦ required
      | paused ↦ required
      | queued ↦ required
      | source_rate_limited ↦ required
      | waiting_for_quota ↦ required
      | auth_required ↦ done job
      | _ ↦ illegal job
    ]

unfoldable pub pause_transfer : MigrationJob → JobOutcome
pause_transfer job =
    let stopped = done (record job { status = paused; queue_position = none }) in
    elim job.status [
      | running_canary ↦ stopped
      | running ↦ stopped
      | pausing ↦ stopped
      | cancelling ↦ stopped
      | paused ↦ done job
      | _ ↦ illegal job
    ]

unfoldable pub resume_transfer : MigrationJob → Bool → JobOutcome
resume_transfer job as_canary =
    let resumed = done (record job {
      status = if as_canary then running_canary else running;
      queue_position = none;
      last_error = none;
    }) in
    elim job.status [
      | paused ↦ resumed
      | queued ↦ resumed
      | source_rate_limited ↦ resumed
      | waiting_for_quota ↦ resumed
      | auth_required ↦ resumed
      | running_canary ↦ if as_canary then done job else illegal job
      | running ↦ if not as_canary then done job else illegal job
      | _ ↦ illegal job
    ]

unfoldable pub enqueue : MigrationJob → ℤ → JobOutcome
enqueue job position =
    let queued_at = done (record job { status = queued; queue_position = some position }) in
    elim job.status [
      | ready_for_review ↦ queued_at
      | canary_review ↦ queued_at
      | paused ↦ queued_at
      | queued ↦ queued_at
      | source_rate_limited ↦ queued_at
      | waiting_for_quota ↦ queued_at
      | auth_required ↦ queued_at
      | _ ↦ illegal job
    ]

-- `matches!(restored_status, ReadyForReview | CanaryReview | Paused)`.
abbrev pub is_restorable : JobStatus → Bool
is_restorable ready_for_review = true
is_restorable canary_review = true
is_restorable paused = true
is_restorable _ = false

unfoldable pub remove_from_queue : MigrationJob → JobStatus → JobOutcome
remove_from_queue job restored_status =
    if not (is_queued job.status) || not (is_restorable restored_status)
    then illegal job
    else done (record job { status = restored_status; queue_position = none })

unfoldable pub set_queue_position : MigrationJob → Option ℤ → MigrationJob
set_queue_position job position = record job { queue_position = position }

unfoldable pub cancel_job : MigrationJob → String → JobOutcome
cancel_job job completed_at = elim job.status [
  | completed ↦ illegal job
  | completed_with_errors ↦ illegal job
  | failed ↦ illegal job
  | cancelled ↦ done job
  | _ ↦
      done
        (record job { status = cancelled; completed_at = some completed_at; queue_position = none })
]

unfoldable pub set_last_error : MigrationJob → String → MigrationJob
set_last_error job error = record job { last_error = some error }
