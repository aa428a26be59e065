-- ===== src/Queue/Moved.antt =====
-- Where a change of the queue puts the job that it names.
use gdom.Base.{
  negsuc, none, ◌++◌, ◌≤◌, length-append, ℕ, zero, suc, ◌+◌, ◌≡◌, refl, sym, ap, ◌∙◌, ℤ, pos, Bool,
  Option, some, List, [], ◌∷◌, ok, arith, length,
}
use gdom.Job.Status.{queued}
use gdom.Job.Types.{MigrationJob}
use gdom.Queue.Plan.{queued_others, insert_index, insert_at, change_plan}
use gdom.Queue.Order.{change_plan-IsInserted}

-- The queue with one job at a place: `before` are ahead of it and `after` behind it.
pub record IsMoved (job_id : ℕ) (position : Option ℤ) (jobs : List MigrationJob) : Type 0 where
  pub before : List MigrationJob
  pub moved : MigrationJob
  pub after : List MigrationJob
  pub result : jobs ≡ before ++ moved ∷ after
  pub same_job : moved.id ≡ job_id
  pub waiting : moved.status ≡ queued
  pub placed : moved.queue_position ≡ some (pos (length before + 1))
  pub as_asked : (place : ℤ) → position ≡ some place → place ≡ pos (length before + 1)
  pub at_end : position ≡ none → after ≡ []

-- A list with one job more, `index` jobs behind its head.
record IsSplit (index : ℕ) (job : MigrationJob) (jobs : List MigrationJob)
    (result : List MigrationJob) : Type 0 where
  pub before : List MigrationJob
  pub after : List MigrationJob
  pub whole : result ≡ before ++ job ∷ after
  pub ahead : length before ≡ index
  pub others : jobs ≡ before ++ after

insert_at-IsSplit :
    (index : ℕ) (job : MigrationJob) (jobs : List MigrationJob)
    → index ≤ length jobs
    → IsSplit index job jobs (insert_at index job jobs)
unfolding insert_at
insert_at-IsSplit zero job jobs fits = record {
  before = [];
  after = jobs;
  whole = refl;
  ahead = refl;
  others = refl;
}
insert_at-IsSplit (suc i) job [] fits = ground arith
insert_at-IsSplit (suc i) job (first ∷ rest) fits =
    let s = insert_at-IsSplit i job rest (omega (arith, fits)) in
    record {
      before = first ∷ s.before;
      after = s.after;
      whole = ap (◌∷◌ first) s.whole;
      ahead = ap suc s.ahead;
      others = ap (◌∷◌ first) s.others;
    }

insert_index-fits :
    (position : Option ℤ) (count index : ℕ)
    → insert_index position count ≡ some index
    → (index ≤ count)
      × ((position ≡ none → index ≡ count)
          × ((place : ℤ) → position ≡ some place → place ≡ pos (index + 1)))
unfolding insert_index
insert_index-fits none count index h =
    (ground arith, ((λ _. ground arith), λ place e. ground (arith, e)))
insert_index-fits (some (negsuc n)) count index h = ground arith
insert_index-fits (some (pos zero)) count index h = ground arith
insert_index-fits (some (pos (suc i))) count index h =
    (ground arith, ((λ e. ground (arith, e)), λ place e. ground (arith, e)))

none_after :
    (before after : List MigrationJob) → length before ≡ length (before ++ after) → after ≡ []
none_after before [] h = refl
none_after before (job ∷ after) h = ground (arith, length-append before (job ∷ after))

-- If a change of the queue is granted, the job that it names stands queued in the place that was asked
-- for, with as many jobs before it as that place says, or after all the others when no place was asked
-- for; and its position is that place.
pub change_plan-IsMoved :
    (expected : List MigrationJob) (job_id : ℕ) (position : Option ℤ) (require_queued : Bool)
    {jobs : List MigrationJob}
    → change_plan expected job_id position require_queued ≡ ok jobs
    → IsMoved job_id position jobs
change_plan-IsMoved expected job_id position require_queued h =
    let m = change_plan-IsInserted expected job_id position require_queued h in
    let (fits, (last, asked)) = insert_index-fits position _ m.index m.chosen in
    let s = insert_at-IsSplit m.index m.moved (queued_others job_id expected) fits in
    record {
      before = s.before;
      moved = m.moved;
      after = s.after;
      result = m.result ∙ s.whole;
      same_job = m.same_job;
      waiting = m.waiting;
      placed = m.placed ∙ ap (λ (n : ℕ). some (pos (n + 1))) (sym s.ahead);
      as_asked = λ place e. asked place e ∙ ap (λ (n : ℕ). pos (n + 1)) (sym s.ahead);
      at_end = λ e. none_after s.before s.after (s.ahead ∙ (last e ∙ ap length s.others));
    }
