-- ===== src/Job/Status.antt =====
-- gdom-migration/src/job/status.rs: the status of a job and its names.
use gdom.Base.{ℕ, String, List, [], ◌∷◌, Bool, true, false, Result, ok, err, ok_or, match_text}

pub data JobStatus : Type 0 where
  draft scanning ready_for_review running_canary canary_review queued running : JobStatus
  pausing paused cancelling cancelled completed completed_with_errors failed : JobStatus
  auth_required source_rate_limited waiting_for_quota : JobStatus

-- job.rs. `root_not_found` carries a `RootId`, a u128.
pub data JobError : Type 0 where
  same_source_and_target account_pair_locked roots_locked : JobError
  duplicate_root : String → JobError
  root_not_found : ℕ → JobError
  invalid_job_status invalid_root_validation_status illegal_transition no_validated_roots : JobError

pub JobStatus-discrete : Discrete JobStatus
JobStatus-discrete = hlevel

unfoldable pub as_str : JobStatus → String
as_str draft = "DRAFT"
as_str scanning = "SCANNING"
as_str ready_for_review = "READY_FOR_REVIEW"
as_str running_canary = "RUNNING_CANARY"
as_str canary_review = "CANARY_REVIEW"
as_str queued = "QUEUED"
as_str running = "RUNNING"
as_str pausing = "PAUSING"
as_str paused = "PAUSED"
as_str cancelling = "CANCELLING"
as_str cancelled = "CANCELLED"
as_str completed = "COMPLETED"
as_str completed_with_errors = "COMPLETED_WITH_ERRORS"
as_str failed = "FAILED"
as_str auth_required = "AUTH_REQUIRED"
as_str source_rate_limited = "SOURCE_RATE_LIMITED"
as_str waiting_for_quota = "WAITING_FOR_QUOTA"

-- The arms of `FromStr::from_str`.
abbrev pub status_arms : List (String × JobStatus)
status_arms =
    ("DRAFT", draft)
    ∷ ("SCANNING", scanning)
    ∷ ("READY_FOR_REVIEW", ready_for_review)
    ∷ ("RUNNING_CANARY", running_canary)
    ∷ ("CANARY_REVIEW", canary_review)
    ∷ ("QUEUED", queued)
    ∷ ("RUNNING", running)
    ∷ ("PAUSING", pausing)
    ∷ ("PAUSED", paused)
    ∷ ("CANCELLING", cancelling)
    ∷ ("CANCELLED", cancelled)
    ∷ ("COMPLETED", completed)
    ∷ ("COMPLETED_WITH_ERRORS", completed_with_errors)
    ∷ ("FAILED", failed)
    ∷ ("AUTH_REQUIRED", auth_required)
    ∷ ("SOURCE_RATE_LIMITED", source_rate_limited)
    ∷ ("WAITING_FOR_QUOTA", waiting_for_quota)
    ∷ []

unfoldable pub from_str : String → Result JobError JobStatus
from_str s = ok_or (match_text s status_arms) invalid_job_status

unfoldable pub is_terminal : JobStatus → Bool
is_terminal completed = true
is_terminal completed_with_errors = true
is_terminal cancelled = true
is_terminal failed = true
is_terminal _ = false

unfoldable pub is_unfinished_mutation : JobStatus → Bool
is_unfinished_mutation running_canary = true
is_unfinished_mutation running = true
is_unfinished_mutation pausing = true
is_unfinished_mutation cancelling = true
is_unfinished_mutation _ = false

unfoldable pub is_transfer_resumable : JobStatus → Bool
is_transfer_resumable paused = true
is_transfer_resumable queued = true
is_transfer_resumable source_rate_limited = true
is_transfer_resumable waiting_for_quota = true
is_transfer_resumable auth_required = true
is_transfer_resumable _ = false

unfoldable pub require_draft_pair : JobStatus → Result JobError (Unit {0})
require_draft_pair draft = ok tt
require_draft_pair _ = err account_pair_locked

unfoldable pub require_draft_roots : JobStatus → Result JobError (Unit {0})
require_draft_roots draft = ok tt
require_draft_roots _ = err roots_locked

-- `status == JobStatus::Queued`.
abbrev pub is_queued : JobStatus → Bool
is_queued queued = true
is_queued _ = false
