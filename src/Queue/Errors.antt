-- ===== src/Queue/Errors.antt =====
-- The errors of the job service and of the job store (src-tauri/src/application/job_service.rs and
-- job_store.rs), and how the one is made of the other.
use gdom.Base.{ℕ, String, ◌<>◌, decimal}
use gdom.Job.Status.{JobError}

pub data RootParseError : Type 0 where
  empty_input invalid_url unsupported_host missing_folder_id invalid_folder_id : RootParseError
  root_container_not_allowed : RootParseError

pub data JobServiceError : Type 0 where
  same_source_and_target : JobServiceError
  source_account_not_found target_account_not_found account_not_active : ℕ → JobServiceError
  job_not_found root_not_found : ℕ → JobServiceError
  duplicate_root : String → JobServiceError
  account_pair_locked roots_locked : JobServiceError
  parse_error : RootParseError → JobServiceError
  token_error drive_error : String → JobServiceError
  folder_not_found not_a_folder folder_trashed shared_drive_not_supported : JobServiceError
  not_owned_by_source_account : JobServiceError
  store_error : String → JobServiceError
  no_validated_roots illegal_transition rate_limited : JobServiceError
  export_failed : String → JobServiceError
  scan_in_progress confirmation_mismatch transfer_in_progress : JobServiceError
  update_installation_busy update_installation_in_progress sharing_rate_limited : JobServiceError
  waiting_for_quota auth_required : JobServiceError

pub data JobStorePortError : Type 0 where
  job_not_found root_not_found : ℕ → JobStorePortError
  same_source_and_target : JobStorePortError
  account_not_found account_has_active_jobs : ℕ → JobStorePortError
  duplicate_root : String → JobStorePortError
  account_pair_locked roots_locked mutation_lease_held : JobStorePortError
  not_draft_job : ℕ → JobStorePortError
  database : String → JobStorePortError

-- `From<JobError>`.
unfoldable pub of_job_error : JobError → JobServiceError
of_job_error JobError.same_source_and_target = JobServiceError.same_source_and_target
of_job_error JobError.account_pair_locked = JobServiceError.account_pair_locked
of_job_error JobError.roots_locked = JobServiceError.roots_locked
of_job_error (JobError.duplicate_root file_id) = JobServiceError.duplicate_root file_id
of_job_error (JobError.root_not_found id) = JobServiceError.root_not_found id
of_job_error JobError.invalid_job_status = JobServiceError.store_error "invalid job status"
of_job_error JobError.invalid_root_validation_status =
    JobServiceError.store_error "invalid root validation status"
of_job_error JobError.illegal_transition = JobServiceError.illegal_transition
of_job_error JobError.no_validated_roots = JobServiceError.no_validated_roots

-- `From<JobStorePortError>`.
unfoldable pub of_store_error : JobStorePortError → JobServiceError
of_store_error (JobStorePortError.job_not_found id) = JobServiceError.job_not_found id
of_store_error (JobStorePortError.root_not_found id) = JobServiceError.root_not_found id
of_store_error JobStorePortError.same_source_and_target = JobServiceError.same_source_and_target
of_store_error (JobStorePortError.account_not_found id) =
    JobServiceError.source_account_not_found id
of_store_error (JobStorePortError.account_has_active_jobs id) =
    JobServiceError.store_error ("account has active jobs: " <> decimal id)
of_store_error (JobStorePortError.duplicate_root file_id) = JobServiceError.duplicate_root file_id
of_store_error JobStorePortError.account_pair_locked = JobServiceError.account_pair_locked
of_store_error JobStorePortError.roots_locked = JobServiceError.roots_locked
of_store_error (JobStorePortError.database message) = JobServiceError.store_error message
of_store_error JobStorePortError.mutation_lease_held = JobServiceError.transfer_in_progress
of_store_error (JobStorePortError.not_draft_job id) = JobServiceError.illegal_transition
