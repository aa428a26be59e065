-- ===== src/Job/Roots.antt =====
-- gdom-migration/src/job/roots.rs, and `change_accounts` of src/job.rs: what only a draft may change.
use gdom.Base.{
  ℕ, String, List, [], ◌∷◌, ◌++◌, Bool, true, false, not, Option, none, some, Result, ok, err,
  ok_or, ◌>>◌, ◌==◌, str_eq, if◌then◌else◌, any, match_text, refuse_if, zero, suc,
}
use gdom.Job.Status.{
  JobError, duplicate_root, root_not_found, invalid_root_validation_status, require_draft_pair,
  require_draft_roots,
}
use gdom.Job.Types.{
  RootValidationStatus, validated, pending, MigrationRoot, AccountSnapshot, AccountPair,
  MigrationJob, JobOutcome, new_pair,
}

unfoldable pub as_str : RootValidationStatus → String
as_str validated = "VALIDATED"
as_str pending = "PENDING"
as_str RootValidationStatus.failed = "FAILED"

abbrev pub validation_arms : List (String × RootValidationStatus)
validation_arms =
    ("VALIDATED", validated) ∷ ("PENDING", pending) ∷ ("FAILED", RootValidationStatus.failed) ∷ []

unfoldable pub from_str : String → Result JobError RootValidationStatus
from_str s = ok_or (match_text s validation_arms) invalid_root_validation_status

-- `root.validation_status == RootValidationStatus::Validated`.
abbrev pub is_validated : RootValidationStatus → Bool
is_validated validated = true
is_validated _ = false

unfoldable pub has_validated_root : MigrationJob → Bool
has_validated_root job = any (λ root. is_validated root.validation_status) job.roots

-- What a `?` at the head of a method does: an error leaves the job alone.
abbrev pub with_result {ℓ} :
    {A : Type ℓ} → MigrationJob → Result JobError A → (A → MigrationJob) → JobOutcome
with_result job (ok a) change = (change a, ok tt)
with_result job (err e) change = (job, err e)

add_root_check : MigrationJob → MigrationRoot → Result JobError (Unit {0})
add_root_check job root = do
  require_draft_roots job.status
  refuse_if (any (λ r. str_eq r.root_file_id root.root_file_id) job.roots)
      (duplicate_root root.root_file_id)

unfoldable pub add_root : MigrationJob → MigrationRoot → JobOutcome
unfolding add_root_check require_draft_roots
add_root job root =
    with_result job (add_root_check job root) (λ _. record job { roots = job.roots ++ (root ∷ []) })

-- `position(|r| r.id == root_id)`, counted from the head.
unfoldable pub position : ℕ → List MigrationRoot → Option ℕ
position root_id [] = none
position root_id (r ∷ rs) = if r.id == root_id then some 0 else shift (position root_id rs)
  where
    shift : Option ℕ → Option ℕ
    shift none = none
    shift (some i) = some (suc i)

-- `Vec::remove`.
unfoldable pub remove_at : ℕ → List MigrationRoot → List MigrationRoot
remove_at i [] = []
remove_at zero (r ∷ rs) = rs
remove_at (suc i) (r ∷ rs) = r ∷ remove_at i rs

remove_root_check : MigrationJob → ℕ → Result JobError ℕ
remove_root_check job root_id = do
  require_draft_roots job.status
  ok_or (position root_id job.roots) (root_not_found root_id)

unfoldable pub remove_root : MigrationJob → ℕ → JobOutcome
unfolding remove_root_check require_draft_roots
remove_root job root_id =
    with_result job (remove_root_check job root_id)
      (λ pos. record job { roots = remove_at pos job.roots })

change_accounts_check :
    MigrationJob → AccountSnapshot → AccountSnapshot → Result JobError AccountPair
change_accounts_check job source target = do
  require_draft_pair job.status
  new_pair source.account_id target.account_id

unfoldable pub change_accounts : MigrationJob → AccountSnapshot → AccountSnapshot → JobOutcome
unfolding change_accounts_check require_draft_pair new_pair
change_accounts job source target =
    with_result job (change_accounts_check job source target) λ accounts. record job {
      accounts = accounts;
      snapshots = record { source = source; target = target };
      roots = if not (job.accounts.source == accounts.source) then [] else job.roots;
    }
