-- ===== src/Job/Invariant.antt =====
-- What holds of a job between two calls, from its creation on.
use gdom.Base.{
  ◌&&◌, is_some, Option-cases, inl, inr, ℕ, zero, suc, ◌≡◌, refl, ◌≢◌, ◌||◌, Bool, true, false,
  List, [], ◌∷◌, ◌++◌, String, ok, arith, any, str_eq, eq_iff,
}
use gdom.Job.Status.{JobStatus, draft, completed, completed_with_errors, cancelled, is_queued}
use gdom.Job.Types.{MigrationRoot, AccountSnapshot, MigrationJob, new_job}
use gdom.Job.Roots.{has_validated_root, add_root, remove_root, remove_at, position}
use gdom.Job.Ops.{JobOp, apply_op, run_ops}

-- The statuses that carry a completion time.
abbrev pub is_stamped : JobStatus → Bool
is_stamped completed = true
is_stamped completed_with_errors = true
is_stamped cancelled = true
is_stamped _ = false

-- Not scanned yet, or given up.
abbrev pub is_unscanned : JobStatus → Bool
is_unscanned draft = true
is_unscanned cancelled = true
is_unscanned _ = false

abbrev pub holds_file : String → List MigrationRoot → Bool
holds_file file_id = any (λ r. str_eq r.root_file_id file_id)

-- No file is a root twice.
abbrev pub AreDistinct : List MigrationRoot → Type 0
AreDistinct [] = Unit
AreDistinct (r ∷ rs) = (holds_file r.root_file_id rs ≡ false) × AreDistinct rs

pub record IsWellFormed (job : MigrationJob) : Type 0 where
  pub accounts_differ : job.accounts.source ≢ job.accounts.target
  pub source_snapshot : job.snapshots.source.account_id ≡ job.accounts.source
  pub target_snapshot : job.snapshots.target.account_id ≡ job.accounts.target
  pub queued_placed : is_some job.queue_position ≡ is_queued job.status
  pub completion_stamped : is_some job.completed_at ≡ is_stamped job.status
  pub scan_started : is_some job.started_at ≡ false → is_unscanned job.status ≡ true
  pub scan_scoped : has_validated_root job ≡ false → is_unscanned job.status ≡ true
  pub roots_distinct : AreDistinct job.roots

holds_file-append :
    (file_id : String) (rs : List MigrationRoot) (root : MigrationRoot)
    → holds_file file_id (rs ++ root ∷ [])
      ≡ (holds_file file_id rs || str_eq root.root_file_id file_id)
holds_file-append file_id [] root = ground arith
holds_file-append file_id (r ∷ rs) root = ground (arith, holds_file-append file_id rs root)

AreDistinct-append :
    (rs : List MigrationRoot) (root : MigrationRoot)
    → AreDistinct rs
    → holds_file root.root_file_id rs ≡ false
    → AreDistinct (rs ++ root ∷ [])
AreDistinct-append [] root d h = (refl, tt)
AreDistinct-append (r ∷ rs) root d h = ground (
  arith,
  holds_file-append r.root_file_id rs root,
  eq_iff root.root_file_id r.root_file_id,
  eq_iff r.root_file_id root.root_file_id,
  AreDistinct-append rs root d.1,
)

holds_file-remove_at :
    (file_id : String) (i : ℕ) (rs : List MigrationRoot)
    → holds_file file_id rs ≡ false
    → holds_file file_id (remove_at i rs) ≡ false
unfolding remove_at
holds_file-remove_at file_id i [] h = refl
holds_file-remove_at file_id zero (r ∷ rs) h = ground arith
holds_file-remove_at file_id (suc i) (r ∷ rs) h = ground (arith, holds_file-remove_at file_id i rs)

AreDistinct-remove_at :
    (i : ℕ) (rs : List MigrationRoot) → AreDistinct rs → AreDistinct (remove_at i rs)
unfolding remove_at
AreDistinct-remove_at i [] d = tt
AreDistinct-remove_at zero (r ∷ rs) d = d.1
AreDistinct-remove_at (suc i) (r ∷ rs) d =
    (holds_file-remove_at r.root_file_id i rs d.0, AreDistinct-remove_at i rs d.1)

-- A job is well formed when `MigrationJob::new` grants it.
pub new_job-IsWellFormed :
    (id : ℕ) (source target : AccountSnapshot) (at : String) {job : MigrationJob}
    → new_job id source target at ≡ ok job
    → IsWellFormed job
unfolding new_job has_validated_root
new_job-IsWellFormed id source target at h = ground arith

add_root-IsWellFormed :
    (job : MigrationJob) (root : MigrationRoot)
    → IsWellFormed job
    → IsWellFormed (add_root job root).0
unfolding add_root has_validated_root
add_root-IsWellFormed job root w = ground (arith, AreDistinct-append job.roots root)

remove_root-IsWellFormed :
    (job : MigrationJob) (root_id : ℕ) → IsWellFormed job → IsWellFormed (remove_root job root_id).0
unfolding remove_root has_validated_root
remove_root-IsWellFormed job root_id w = elim (Option-cases (position root_id job.roots)) [
  | inl missing ↦ ground arith
  | inr (i, found) ↦ ground (arith, AreDistinct-remove_at i job.roots w.roots_distinct)
]

-- The queue places a job only while the job is queued: it calls `set_queue_position` under that test.
abbrev pub is_placing : JobOp → MigrationJob → Bool
is_placing (JobOp.set_queue_position position) job = is_queued job.status && is_some position
is_placing _ job = true

abbrev pub places_queued : List JobOp → MigrationJob → Bool
places_queued [] job = true
places_queued (op ∷ ops) job = is_placing op job && places_queued ops (apply_op op job).0

-- Every method, on every status and every branch, keeps the job well formed.
pub apply_op-IsWellFormed :
    (op : JobOp) (job : MigrationJob)
    → is_placing op job ≡ true
    → IsWellFormed job
    → IsWellFormed (apply_op op job).0
unfolding apply_op has_validated_root
apply_op-IsWellFormed (JobOp.add_root_op root) job p w = add_root-IsWellFormed job root w
apply_op-IsWellFormed (JobOp.remove_root_op root_id) job p w =
    remove_root-IsWellFormed job root_id w
apply_op-IsWellFormed _ job p w = ground arith

run_ops_well :
    (ops : List JobOp) (job : MigrationJob)
    → places_queued ops job ≡ true
    → IsWellFormed job
    → IsWellFormed (run_ops ops job)
unfolding run_ops
run_ops_well [] job p w = w
run_ops_well (op ∷ ops) job p w =
    run_ops_well ops (apply_op op job).0 (ground arith)
      (apply_op-IsWellFormed op job (ground arith) w)

-- A job that `MigrationJob::new` grants is well formed after every history of calls of its methods and
-- setters in which `set_queue_position` is called only on a queued job and with a position, as the queue
-- does.
pub run_ops-IsWellFormed :
    (id : ℕ) (source target : AccountSnapshot) (at : String) (ops : List JobOp) {job : MigrationJob}
    → new_job id source target at ≡ ok job
    → places_queued ops job ≡ true
    → IsWellFormed (run_ops ops job)
run_ops-IsWellFormed id source target at ops {job} granted placed =
    run_ops_well ops job placed (new_job-IsWellFormed id source target at granted)
