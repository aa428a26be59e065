-- ===== src/Job/Types.antt =====
-- gdom-migration/src/job.rs and job/roots.rs: the record of a job. A u128 id is a number, and so is
-- a `usize`; an i64 is the integer that it stands for; a `GooglePermissionId` is its text.
use gdom.Base.{ℕ, ℤ, String, List, [], Option, none, Result, ok, err, ◌==◌, if◌then◌else◌, ◌>>=◌}
use gdom.Job.Status.{JobStatus, draft, JobError, same_source_and_target}

abbrev pub default_canary_size : ℕ
default_canary_size = 5

pub data RootValidationStatus : Type 0 where
  validated pending failed : RootValidationStatus

pub record MigrationRoot : Type 0 where
  pub id : ℕ
  pub job_id : ℕ
  pub root_file_id : String
  pub root_name : String
  pub validation_status : RootValidationStatus
  pub created_at : String

pub record AccountSnapshot : Type 0 where
  pub account_id : ℕ
  pub email : String
  pub display_name : String
  pub permission_id : String

pub record JobAccountSnapshots : Type 0 where
  pub source : AccountSnapshot
  pub target : AccountSnapshot

pub record AccountPair : Type 0 where
  pub source : ℕ
  pub target : ℕ

pub record MigrationJob : Type 0 where
  pub id : ℕ
  pub accounts : AccountPair
  pub snapshots : JobAccountSnapshots
  pub status : JobStatus
  pub queue_position : Option ℤ
  pub canary_size : ℕ
  pub created_at : String
  pub started_at : Option String
  pub completed_at : Option String
  pub last_error : Option String
  pub roots : List MigrationRoot

-- `AccountPair::new`.
unfoldable pub new_pair : ℕ → ℕ → Result JobError AccountPair
new_pair source target =
    if source == target
    then err same_source_and_target
    else ok (record { source = source; target = target })

-- `MigrationJob::new`.
unfoldable pub new_job :
    ℕ → AccountSnapshot → AccountSnapshot → String → Result JobError MigrationJob
unfolding new_pair
new_job id source target created_at = do
  accounts ← new_pair source.account_id target.account_id
  ok (record {
    id = id;
    accounts = accounts;
    snapshots = record { source = source; target = target };
    status = draft;
    queue_position = none;
    canary_size = default_canary_size;
    created_at = created_at;
    started_at = none;
    completed_at = none;
    last_error = none;
    roots = [];
  })

-- What a method of `&mut self` leaves behind: the job and its answer.
abbrev pub JobOutcome : Type 0
JobOutcome = MigrationJob × Result JobError (Unit {0})
