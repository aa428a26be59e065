-- ===== src/Queue/Removal.antt =====
-- What a removal makes of the queue.
use gdom.Base.{
  some, pos, filter, ◌&&◌, ℕ, ◌+◌, ◌≡◌, sym, ap, ◌∙◌, subst, true, false, none, List, [], ◌∷◌, ◌++◌,
  ok, >>=-ok, ok_injective, arith, all,
}
use mathlib.Core.List.{Perm}
use gdom.Queue.Sorted.{AreOrdered, queued_others-AreOrdered}
use gdom.Job.Status.{JobStatus, is_queued}
use gdom.Job.Types.{MigrationJob}
use gdom.Job.Transfer
use gdom.Queue.Plan.{
  is_other, queued_others, find_job, granted, remove_plan, place_job, number_jobs,
}
use gdom.Queue.Order.{find_job-id, queued_others-queued}

-- The jobs with the positions i + 1, i + 2 and so on, and nothing else of them changed.
abbrev pub renumbered : ℕ → List MigrationJob → List MigrationJob
renumbered i [] = []
renumbered i (job ∷ rest) =
    record job { queue_position = some (pos (i + 1)) } ∷ renumbered (i + 1) rest

-- The jobs that stay are the other queued jobs of the store, in the order of their positions, and close
-- up; the removed one, stored after them, has no place.
pub record IsRemoved (expected : List MigrationJob) (job_id : ℕ) (restored : JobStatus)
    (changed : List MigrationJob) : Type 0 where
  pub staying : List MigrationJob
  pub removed : MigrationJob
  pub in_order : AreOrdered staying
  pub all_stay : Perm staying (filter (λ job. is_queued job.status && is_other job_id job) expected)
  pub result : changed ≡ renumbered 0 staying ++ removed ∷ []
  pub same_job : removed.id ≡ job_id
  pub status_restored : removed.status ≡ restored
  pub unplaced : removed.queue_position ≡ none

place_job-queued_only :
    (i : ℕ) (job placed : MigrationJob)
    → is_queued job.status ≡ true
    → place_job i job ≡ ok placed
    → placed ≡ record job { queue_position = some (pos (i + 1)) }
unfolding place_job Transfer.set_queue_position
place_job-queued_only i job placed q h = ground arith

place_job-unqueued :
    (i : ℕ) (job placed : MigrationJob)
    → is_queued job.status ≡ false
    → place_job i job ≡ ok placed
    → placed ≡ job
unfolding place_job
place_job-unqueued i job placed q h = ground arith

number_jobs-last :
    (i : ℕ) (jobs : List MigrationJob) (last : MigrationJob) {changed : List MigrationJob}
    → all (λ job. is_queued job.status) jobs ≡ true
    → is_queued last.status ≡ false
    → number_jobs i (jobs ++ last ∷ []) ≡ ok changed
    → changed ≡ renumbered i jobs ++ last ∷ []
unfolding number_jobs
number_jobs-last i [] last q n h =
    let (placed, (first, h')) = >>=-ok (place_job i last) _ h in
    sym (ok_injective h') ∙ ap (λ job. job ∷ []) (place_job-unqueued i last placed n first)
number_jobs-last i (job ∷ rest) last q n h =
    let (placed, (first, h')) = >>=-ok (place_job i job) _ h in
    let (later, (numbered, same)) = >>=-ok (number_jobs (i + 1) (rest ++ last ∷ [])) _ h' in
    sym (ok_injective same)
    ∙ (ap (◌∷◌ placed) (number_jobs-last (i + 1) rest last (ground arith) n numbered)
        ∙ ap (λ (j : MigrationJob). j ∷ (renumbered (i + 1) rest ++ last ∷ []))
            (place_job-queued_only i job placed (ground arith) first))

unqueued :
    (target removed : MigrationJob) (restored : JobStatus)
    → granted (Transfer.remove_from_queue target restored) ≡ ok removed
    → ((removed.id ≡ target.id) × (is_queued removed.status ≡ false))
      × ((removed.status ≡ restored) × (removed.queue_position ≡ none))
unfolding Transfer.remove_from_queue
unqueued target removed restored h = ground arith

-- If a removal is granted and numbered, the jobs that are stored are exactly the other queued jobs of
-- the store, in the order of their positions, each as it was but for its position, which is 1, 2 and so
-- on without a gap where the removed one stood; and after them the removed one with the restored status
-- and no position.
pub remove_plan-IsRemoved :
    (expected : List MigrationJob) (job_id : ℕ) (restored : JobStatus)
    {jobs changed : List MigrationJob}
    → remove_plan expected job_id restored ≡ ok jobs
    → number_jobs 0 jobs ≡ ok changed
    → IsRemoved expected job_id restored changed
unfolding remove_plan
remove_plan-IsRemoved expected job_id restored {changed = changed} h n =
    let (target, (found, h')) = >>=-ok (find_job job_id expected) _ h in
    let (removed, (left, same)) =
      >>=-ok (granted (Transfer.remove_from_queue target restored)) _ h' in
    let u = unqueued target removed restored left in
    let order = queued_others-AreOrdered job_id expected in
    record {
      staying = queued_others job_id expected;
      removed = removed;
      in_order = order.0;
      all_stay = order.1;
      result =
          number_jobs-last 0 (queued_others job_id expected) removed
            (queued_others-queued job_id expected) u.0.1
            (subst (λ jobs. number_jobs 0 jobs ≡ ok changed) (sym (ok_injective same)) n);
      same_job = u.0.0 ∙ find_job-id job_id expected target found;
      status_restored = u.1.0;
      unplaced = u.1.1;
    }
