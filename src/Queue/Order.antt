-- ===== src/Queue/Order.antt =====
-- What a change of the queue makes of its order.
use gdom.Base.{
  ℕ, zero, suc, ◌+◌, ◌≡◌, refl, sym, ap, ◌∙◌, subst, ℤ, pos, Bool, true, false, ◌&&◌, Option, some,
  List, [], ◌∷◌, ok, >>=-ok, ok_or, refuse_if, arith, all, filter, find?-passes, >>-ok,
  ok_injective, ok_or-ok, ==_iff, length, ◌==◌,
}
use mathlib.Core.List.{Perm}
use gdom.Queue.Sorted.{AreOrdered, queued_others-AreOrdered}
use gdom.Job.Status.{JobStatus, queued, is_queued}
use gdom.Job.Types.{MigrationJob}
use gdom.Job.Transfer
use gdom.Queue.Plan.{
  insert_job, sort_jobs, is_other, queued_others, find_job, insert_index, insert_at, to_i64,
  granted, change_plan, place_job, number_jobs,
}

-- The jobs wait in places i + 1, i + 2 and so on, without a gap.
abbrev pub ArePlaced : ℕ → List MigrationJob → Type 0
ArePlaced i [] = Unit
ArePlaced i (job ∷ rest) =
    (job.status ≡ queued) × ((job.queue_position ≡ some (pos (i + 1))) × ArePlaced (i + 1) rest)

-- In the queue, and not the job that moves.
abbrev waits : ℕ → MigrationJob → Bool
waits job_id job = is_queued job.status && is_other job_id job

module _ (p : MigrationJob → Bool) where
  all-insert_job :
      (job : MigrationJob) (jobs : List MigrationJob)
      → p job ≡ true
      → all p jobs ≡ true
      → all p (insert_job job jobs) ≡ true
  unfolding insert_job
  all-insert_job job [] h hs = ground arith
  all-insert_job job (other ∷ rest) h hs = ground (arith, all-insert_job job rest)

  all-sort_jobs : (jobs : List MigrationJob) → all p jobs ≡ true → all p (sort_jobs jobs) ≡ true
  unfolding sort_jobs
  all-sort_jobs [] h = refl
  all-sort_jobs (job ∷ rest) h =
      all-insert_job job (sort_jobs rest) (ground arith) (all-sort_jobs rest (ground arith))

  all-filter : (jobs : List MigrationJob) → all p (filter p jobs) ≡ true
  all-filter [] = refl
  all-filter (job ∷ rest) = ground (arith, all-filter rest)

  all-insert_at :
      (i : ℕ) (job : MigrationJob) (jobs : List MigrationJob)
      → p job ≡ true
      → all p jobs ≡ true
      → all p (insert_at i job jobs) ≡ true
  unfolding insert_at
  all-insert_at zero job jobs h hs = ground arith
  all-insert_at (suc i) job [] h hs = ground arith
  all-insert_at (suc i) job (first ∷ rest) h hs = ground (arith, all-insert_at i job rest)

queued_others-wait :
    (job_id : ℕ) (expected : List MigrationJob)
    → all (waits job_id) (queued_others job_id expected) ≡ true
unfolding queued_others
queued_others-wait job_id expected =
    all-sort_jobs (waits job_id) (filter (waits job_id) expected)
      (all-filter (waits job_id) expected)

weaken :
    (p q : MigrationJob → Bool) (jobs : List MigrationJob)
    → ((job : MigrationJob) → p job ≡ true → q job ≡ true)
    → all p jobs ≡ true
    → all q jobs ≡ true
weaken p q [] f h = refl
weaken p q (job ∷ rest) f h = ground (arith, f job, weaken p q rest f)

queued_state : (s : JobStatus) → is_queued s ≡ true → s ≡ queued
queued_state s h = ground arith

pub place_job-queued :
    (i : ℕ) (job placed : MigrationJob)
    → is_queued job.status ≡ true
    → place_job i job ≡ ok placed
    → (placed.status ≡ queued) × (placed.queue_position ≡ some (pos (i + 1)))
unfolding place_job Transfer.set_queue_position
place_job-queued i job placed q h = ground (arith, queued_state job.status)

number_jobs-ArePlaced :
    (i : ℕ) (jobs : List MigrationJob) {changed : List MigrationJob}
    → all (λ job. is_queued job.status) jobs ≡ true
    → number_jobs i jobs ≡ ok changed
    → ArePlaced i changed
unfolding number_jobs
number_jobs-ArePlaced i [] q h = subst (ArePlaced i) (ok_injective h) tt
number_jobs-ArePlaced i (job ∷ rest) q h =
    let (placed, (first, h')) = >>=-ok (place_job i job) _ h in
    let (others, (later, same)) = >>=-ok (number_jobs (i + 1) rest) _ h' in
    let here = place_job-queued i job placed (ground arith) first in
    subst (ArePlaced i) (ok_injective same)
      (here.0, (here.1, number_jobs-ArePlaced (i + 1) rest (ground arith) later))

pub queued_others-queued :
    (job_id : ℕ) (expected : List MigrationJob)
    → all (λ job. is_queued job.status) (queued_others job_id expected) ≡ true
queued_others-queued job_id expected =
    weaken (waits job_id) (λ job. is_queued job.status) (queued_others job_id expected)
      (λ job w. ground arith) (queued_others-wait job_id expected)

-- What `change_plan` puts together.
pub record IsInserted (expected : List MigrationJob) (job_id : ℕ) (position : Option ℤ)
    (jobs : List MigrationJob) : Type 0 where
  pub index : ℕ
  pub moved : MigrationJob
  pub same_job : moved.id ≡ job_id
  pub waiting : moved.status ≡ queued
  pub placed : moved.queue_position ≡ some (pos (index + 1))
  pub chosen : insert_index position (length (queued_others job_id expected)) ≡ some index
  pub result : jobs ≡ insert_at index moved (queued_others job_id expected)

pub find_job-id :
    (job_id : ℕ) (expected : List MigrationJob) (job : MigrationJob)
    → find_job job_id expected ≡ ok job
    → job.id ≡ job_id
unfolding find_job
find_job-id job_id expected job h =
    (==_iff job.id job_id).0 (find?-passes (λ job. job.id == job_id) expected job (ok_or-ok _ _ h))

enqueued :
    (target moved : MigrationJob) (place : ℤ)
    → granted (Transfer.enqueue target place) ≡ ok moved
    → (moved.id ≡ target.id) × ((moved.status ≡ queued) × (moved.queue_position ≡ some place))
unfolding Transfer.enqueue
enqueued target moved place h = ground arith

to_i64-pos : (n : ℕ) (place : ℤ) → to_i64 n ≡ ok place → place ≡ pos n
unfolding to_i64
to_i64-pos n place h = ground arith

pub change_plan-IsInserted :
    (expected : List MigrationJob) (job_id : ℕ) (position : Option ℤ) (require_queued : Bool)
    {jobs : List MigrationJob}
    → change_plan expected job_id position require_queued ≡ ok jobs
    → IsInserted expected job_id position jobs
unfolding change_plan
change_plan-IsInserted expected job_id position require_queued h =
    let (target, (found, h1)) = >>=-ok (find_job job_id expected) _ h in
    let (index, (chosen, h2)) =
      >>=-ok (ok_or (insert_index position (length (queued_others job_id expected))) _) _
        (>>-ok (refuse_if _ _) _ h1) in
    let (place, (fits, h3)) = >>=-ok (to_i64 (index + 1)) _ h2 in
    let (moved, (queued_, same)) = >>=-ok (granted (Transfer.enqueue target place)) _ h3 in
    let at = enqueued target moved place queued_ in
    record {
      index = index;
      moved = moved;
      same_job = at.0 ∙ find_job-id job_id expected target found;
      waiting = at.1.0;
      placed = at.1.1 ∙ ap some (to_i64-pos (index + 1) place fits);
      chosen = ok_or-ok _ _ chosen;
      result = sym (ok_injective same);
    }

change_plan-queued :
    (expected : List MigrationJob) (job_id : ℕ) (position : Option ℤ) (require_queued : Bool)
    {jobs : List MigrationJob}
    → change_plan expected job_id position require_queued ≡ ok jobs
    → all (λ job. is_queued job.status) jobs ≡ true
change_plan-queued expected job_id position require_queued h =
    let m = change_plan-IsInserted expected job_id position require_queued h in
    subst (λ jobs. all (λ job. is_queued job.status) jobs ≡ true) (sym m.result)
      (all-insert_at (λ job. is_queued job.status) m.index m.moved (queued_others job_id expected)
        (ap is_queued m.waiting) (queued_others-queued job_id expected))

-- If a change of the queue is granted and numbered, the jobs that are stored are all queued, and their
-- positions are 1, 2 and so on in their order, without a gap or a repetition, whatever positions they
-- had before.
pub change_plan-ArePlaced :
    (expected : List MigrationJob) (job_id : ℕ) (position : Option ℤ) (require_queued : Bool)
    {jobs changed : List MigrationJob}
    → change_plan expected job_id position require_queued ≡ ok jobs
    → number_jobs 0 jobs ≡ ok changed
    → ArePlaced 0 changed
change_plan-ArePlaced expected job_id position require_queued {jobs} h n =
    number_jobs-ArePlaced 0 jobs (change_plan-queued expected job_id position require_queued h) n

filter-insert_at :
    (p : MigrationJob → Bool) (i : ℕ) (job : MigrationJob) (jobs : List MigrationJob)
    → p job ≡ false
    → all p jobs ≡ true
    → filter p (insert_at i job jobs) ≡ jobs
unfolding insert_at
filter-insert_at p zero job jobs h hs = rw (h, kept jobs hs) refl
  where
    kept : (jobs : List MigrationJob) → all p jobs ≡ true → filter p jobs ≡ jobs
    kept [] hs = refl
    kept (first ∷ rest) hs = ground (arith, kept rest)
filter-insert_at p (suc i) job [] h hs = ground arith
filter-insert_at p (suc i) job (first ∷ rest) h hs = ground (arith, filter-insert_at p i job rest)

change_plan_rest :
    (expected : List MigrationJob) (job_id : ℕ) (position : Option ℤ) (require_queued : Bool)
    {jobs : List MigrationJob}
    → change_plan expected job_id position require_queued ≡ ok jobs
    → filter (is_other job_id) jobs ≡ queued_others job_id expected
change_plan_rest expected job_id position require_queued h =
    let m = change_plan-IsInserted expected job_id position require_queued h in
    ap (filter (is_other job_id)) m.result
    ∙ filter-insert_at (is_other job_id) m.index m.moved (queued_others job_id expected)
        (ground (arith, m.same_job))
        (weaken (waits job_id) (is_other job_id) (queued_others job_id expected)
          (λ job w. ground arith) (queued_others-wait job_id expected))

-- If a change of the queue is granted, the jobs of the result other than the one it names are exactly
-- the other queued jobs of the store, unchanged and each as often as it is listed, and they stand in the
-- order of the positions that they had, by id where two positions agree.
pub change_plan-others :
    (expected : List MigrationJob) (job_id : ℕ) (position : Option ℤ) (require_queued : Bool)
    {jobs : List MigrationJob}
    → change_plan expected job_id position require_queued ≡ ok jobs
    → AreOrdered (filter (is_other job_id) jobs)
      × Perm
          (filter (is_other job_id) jobs)
          (filter (λ job. is_queued job.status && is_other job_id job) expected)
change_plan-others expected job_id position require_queued h =
    let waiting = filter (λ job. is_queued job.status && is_other job_id job) expected in
    subst (λ others. AreOrdered others × Perm others waiting)
      (sym (change_plan_rest expected job_id position require_queued h))
      (queued_others-AreOrdered job_id expected)
