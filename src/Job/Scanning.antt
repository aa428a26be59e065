-- ===== src/Job/Scanning.antt =====
-- gdom-migration/src/job/scanning.rs: the transitions of the scan.
use gdom.Base.{String, not, Option, none, some, ok, err, if◌then◌else◌}
use gdom.Job.Status.{
  draft, scanning, ready_for_review, paused, failed, illegal_transition, no_validated_roots,
}
use gdom.Job.Types.{MigrationJob, JobOutcome}
use gdom.Job.Roots.{has_validated_root}

-- The two answers that every transition ends with: the job as it is now, and a refusal.
abbrev pub done : MigrationJob → JobOutcome
done job = (job, ok tt)

abbrev pub illegal : MigrationJob → JobOutcome
illegal job = (job, err illegal_transition)

-- `if self.started_at.is_none() { self.started_at = Some(started_at) }`.
abbrev pub set_if_none : Option String → String → Option String
set_if_none none s = some s
set_if_none (some t) s = some t

unfoldable pub start_scanning : MigrationJob → String → JobOutcome
unfolding has_validated_root
start_scanning job started_at = elim job.status [
  | draft ↦
      if not (has_validated_root job)
      then (job, err no_validated_roots)
      else done
          (record job { status = scanning; started_at = set_if_none job.started_at started_at })
  | paused ↦ done (record job { status = scanning })
  | scanning ↦ done job
  | _ ↦ illegal job
]

unfoldable pub pause_scanning : MigrationJob → JobOutcome
pause_scanning job = elim job.status [
  | scanning ↦ done (record job { status = paused })
  | paused ↦ done job
  | _ ↦ illegal job
]

unfoldable pub complete_scanning : MigrationJob → JobOutcome
complete_scanning job = elim job.status [
  | scanning ↦ done (record job { status = ready_for_review })
  | ready_for_review ↦ done job
  | _ ↦ illegal job
]

unfoldable pub fail_scanning : MigrationJob → String → JobOutcome
fail_scanning job error = elim job.status [
  | scanning ↦ done (record job { status = failed; last_error = some error })
  | paused ↦ done (record job { status = failed; last_error = some error })
  | _ ↦ illegal job
]
