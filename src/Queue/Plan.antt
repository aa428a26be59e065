-- ===== src/Queue/Plan.antt =====
-- src-tauri/src/application/queue_service.rs: the order that a change of the queue asks for, from the
-- jobs that the store lists.
use gdom.Base.{
  ℕ, zero, suc, ◌+◌, ℤ, pos, negsuc, ltb_ℤ, i64_max, Bool, not, ◌&&◌, ◌||◌, Option, none, some,
  List, [], ◌∷◌, ◌++◌, Result, ok, err, ok_or, refuse_if, ◌>>=◌, ◌>>◌, leb, ◌==◌, if◌then◌else◌,
  find?, filter, length, get_or,
}
use gdom.Job.Status.{JobStatus, is_queued}
use gdom.Job.Types.{MigrationJob, JobOutcome}
use gdom.Job.Transfer
use gdom.Queue.Errors.{JobServiceError, of_job_error}

-- The key `(queue_position.unwrap_or(i64::MAX), id)`, compared as Rust compares pairs.
unfoldable pub not_after : MigrationJob → MigrationJob → Bool
not_after a b =
    let at = get_or a.queue_position (pos i64_max) in
    let bt = get_or b.queue_position (pos i64_max) in
    ltb_ℤ at bt || (not (ltb_ℤ bt at) && leb a.id b.id)

-- `sort_by_key`, which is stable.
unfoldable pub insert_job : MigrationJob → List MigrationJob → List MigrationJob
unfolding not_after
insert_job job [] = job ∷ []
insert_job job (other ∷ rest) =
    if not_after job other then job ∷ (other ∷ rest) else other ∷ insert_job job rest

unfoldable pub sort_jobs : List MigrationJob → List MigrationJob
unfolding insert_job
sort_jobs [] = []
sort_jobs (job ∷ rest) = insert_job job (sort_jobs rest)

abbrev pub is_other : ℕ → MigrationJob → Bool
is_other job_id job = not (job.id == job_id)

-- The other jobs of the queue, in its order.
unfoldable pub queued_others : ℕ → List MigrationJob → List MigrationJob
unfolding sort_jobs
queued_others job_id expected =
    sort_jobs (filter (λ job. is_queued job.status && is_other job_id job) expected)

unfoldable pub find_job : ℕ → List MigrationJob → Result JobServiceError MigrationJob
find_job job_id expected =
    ok_or (find? (λ job. job.id == job_id) expected) (JobServiceError.job_not_found job_id)

-- `usize::try_from(position)`, less one, and not beyond the end.
unfoldable pub insert_index : Option ℤ → ℕ → Option ℕ
insert_index none count = some count
insert_index (some (negsuc n)) count = none
insert_index (some (pos zero)) count = none
insert_index (some (pos (suc i))) count = if leb i count then some i else none

-- `Vec::insert`.
unfoldable pub insert_at : ℕ → MigrationJob → List MigrationJob → List MigrationJob
insert_at zero job jobs = job ∷ jobs
insert_at (suc i) job [] = job ∷ []
insert_at (suc i) job (first ∷ rest) = first ∷ insert_at i job rest

-- `i64::try_from`.
unfoldable pub to_i64 : ℕ → Result JobServiceError ℤ
to_i64 n = if leb n i64_max then ok (pos n) else err JobServiceError.illegal_transition

-- `job.method()?`.
abbrev pub granted : JobOutcome → Result JobServiceError MigrationJob
granted (job, ok tt) = ok job
granted (job, err e) = err (of_job_error e)

-- The list that `change_queue` hands to `persist_queue`.
unfoldable pub change_plan :
    List MigrationJob → ℕ → Option ℤ → Bool → Result JobServiceError (List MigrationJob)
unfolding find_job queued_others insert_index to_i64 insert_at
change_plan expected job_id position require_queued = do
  target ← find_job job_id expected
  refuse_if (require_queued && not (is_queued target.status)) JobServiceError.illegal_transition
  index ←
      ok_or (insert_index position (length (queued_others job_id expected)))
        JobServiceError.illegal_transition
  place ← to_i64 (index + 1)
  moved ← granted (Transfer.enqueue target place)
  ok (insert_at index moved (queued_others job_id expected))

-- The list that `remove_queued_job` hands to `persist_queue`, with the status that it chose.
unfoldable pub remove_plan :
    List MigrationJob → ℕ → JobStatus → Result JobServiceError (List MigrationJob)
unfolding find_job queued_others
remove_plan expected job_id restored = do
  target ← find_job job_id expected
  removed ← granted (Transfer.remove_from_queue target restored)
  ok (queued_others job_id expected ++ removed ∷ [])

-- `if job.status() == Queued { job.set_queue_position(..) }`, at the index of the loop.
unfoldable pub place_job : ℕ → MigrationJob → Result JobServiceError MigrationJob
unfolding to_i64
place_job index job =
    if is_queued job.status
    then to_i64 (index + 1) >>= (λ place. ok (Transfer.set_queue_position job (some place)))
    else ok job

-- The jobs that `persist_queue` stores.
unfoldable pub number_jobs : ℕ → List MigrationJob → Result JobServiceError (List MigrationJob)
unfolding place_job
number_jobs index [] = ok []
number_jobs index (job ∷ rest) = do
  placed ← place_job index job
  others ← number_jobs (index + 1) rest
  ok (placed ∷ others)
