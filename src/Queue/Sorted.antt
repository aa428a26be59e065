-- ===== src/Queue/Sorted.antt =====
-- The order in which the queue is read.
use gdom.Base.{
  Bool, if◌then◌else◌, ◌≤◌, ◌⊎◌, ℤ, pos, negsuc, ltb_ℤ, get_or, i64_max, ap, ◌≡◌, true, false, List,
  [], ◌∷◌, ℕ, arith, Bool-cases, inl, inr, filter, ◌&&◌,
}
use mathlib.Core.List.{Perm}
use mathlib.Core.List.Perm
use gdom.Job.Types.{MigrationJob}
use gdom.Job.Status.{is_queued}
use gdom.Queue.Plan.{not_after, insert_job, sort_jobs, queued_others, is_other}

-- Where a job waits: a job without a position waits at the end.
abbrev pub place_of : MigrationJob → ℤ
place_of job = get_or job.queue_position (pos i64_max)

-- The one waits before the other, or both in one place and its id is not the larger.
abbrev pub IsNotAfter : MigrationJob → MigrationJob → Type 0
IsNotAfter a b =
    (ltb_ℤ (place_of a) (place_of b) ≡ true) ⊎ ((place_of a ≡ place_of b) × (a.id ≤ b.id))

-- Each job stands no later than its successor by position, and by id among equal positions.
abbrev pub AreOrdered : List MigrationJob → Type 0
AreOrdered [] = Unit
AreOrdered (a ∷ []) = Unit
AreOrdered (a ∷ (b ∷ rest)) = IsNotAfter a b × AreOrdered (b ∷ rest)

same_place : (a b : ℤ) → ltb_ℤ a b ≡ false → ltb_ℤ b a ≡ false → a ≡ b
same_place (pos m) (pos n) h k = ap pos (ground arith)
same_place (pos m) (negsuc n) h k = ground arith
same_place (negsuc m) (pos n) h k = ground arith
same_place (negsuc m) (negsuc n) h k = ap negsuc (ground arith)

not_after-IsNotAfter : (a b : MigrationJob) → not_after a b ≡ true → IsNotAfter a b
unfolding not_after
not_after-IsNotAfter a b h = elim (Bool-cases (ltb_ℤ (place_of a) (place_of b))) [
  | inl before ↦ inl before
  | inr other ↦ elim (Bool-cases (ltb_ℤ (place_of b) (place_of a))) [
    | inl after ↦ absurd (ground arith)
    | inr same ↦ inr (same_place (place_of a) (place_of b) other same, ground arith)
  ]
]

not_after-total : (a b : MigrationJob) → not_after a b ≡ false → not_after b a ≡ true
unfolding not_after
not_after-total a b h = ground arith

followed :
    (first : Bool) (a b job : MigrationJob) (rest later : List MigrationJob)
    → IsNotAfter a job
    → IsNotAfter a b
    → AreOrdered (if first then job ∷ (b ∷ rest) else b ∷ later)
    → AreOrdered (a ∷ (if first then job ∷ (b ∷ rest) else b ∷ later))
followed true a b job rest later before old tail = (before, tail)
followed false a b job rest later before old tail = (old, tail)

insert_job-AreOrdered :
    (job : MigrationJob) (jobs : List MigrationJob)
    → AreOrdered jobs
    → AreOrdered (insert_job job jobs)
unfolding insert_job
insert_job-AreOrdered job [] o = tt
insert_job-AreOrdered job (a ∷ []) o = elim (Bool-cases (not_after job a)) [
  | inl first ↦ rw first (not_after-IsNotAfter job a first, tt)
  | inr later ↦ rw later (not_after-IsNotAfter a job (not_after-total job a later), tt)
]
insert_job-AreOrdered job (a ∷ (b ∷ rest)) o = elim (Bool-cases (not_after job a)) [
  | inl first ↦ rw first (not_after-IsNotAfter job a first, o)
  | inr later ↦ rw later (
      followed (not_after job b) a b job rest (insert_job job rest)
        (not_after-IsNotAfter a job (not_after-total job a later)) o.0
        (insert_job-AreOrdered job (b ∷ rest) o.1))
]

sort_jobs-AreOrdered : (jobs : List MigrationJob) → AreOrdered (sort_jobs jobs)
unfolding sort_jobs
sort_jobs-AreOrdered [] = tt
sort_jobs-AreOrdered (job ∷ rest) =
    insert_job-AreOrdered job (sort_jobs rest) (sort_jobs-AreOrdered rest)

insert_job-Perm :
    (job : MigrationJob) (jobs : List MigrationJob) → Perm (insert_job job jobs) (job ∷ jobs)
unfolding insert_job
insert_job-Perm job [] = Perm.refl (job ∷ [])
insert_job-Perm job (a ∷ rest) = elim (Bool-cases (not_after job a)) [
  | inl first ↦ rw first (Perm.refl (job ∷ (a ∷ rest)))
  | inr later ↦
      rw later (Perm.trans (Perm.cons a (insert_job-Perm job rest)) (Perm.swap job a rest))
]

sort_jobs-Perm : (jobs : List MigrationJob) → Perm (sort_jobs jobs) jobs
unfolding sort_jobs
sort_jobs-Perm [] = Perm.refl []
sort_jobs-Perm (job ∷ rest) =
    Perm.trans (insert_job-Perm job (sort_jobs rest)) (Perm.cons job (sort_jobs-Perm rest))

-- The other jobs of the queue are read in the order of their positions, by id where positions agree, and
-- they are exactly the queued jobs of the store, each as often as it is listed.
pub queued_others-AreOrdered :
    (job_id : ℕ) (expected : List MigrationJob)
    → AreOrdered (queued_others job_id expected)
      × Perm
          (queued_others job_id expected)
          (filter (λ job. is_queued job.status && is_other job_id job) expected)
unfolding queued_others
queued_others-AreOrdered job_id expected = (
  sort_jobs-AreOrdered (filter (λ job. is_queued job.status && is_other job_id job) expected),
  sort_jobs-Perm (filter (λ job. is_queued job.status && is_other job_id job) expected),
)
