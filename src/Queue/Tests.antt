-- ===== src/Queue/Tests.antt =====
-- A queue of two jobs, and a third that enters it at the head.
use gdom.Base.{◌&&◌, ◌≡◌, refl, ℕ, pos, some, none, List, [], ◌∷◌, ok, false, filter}
use mathlib.Core.List.{Perm}
use gdom.Queue.Sorted.{AreOrdered}
use gdom.Job.Status.{is_queued, queued, ready_for_review}
use gdom.Job.Types.{MigrationJob}
use gdom.Job.Transfer
use gdom.Job.Tests.{new}
use gdom.Queue.Plan.{
  change_plan, remove_plan, number_jobs, place_job, queued_others, find_job, insert_index,
  insert_at, to_i64, sort_jobs, insert_job, not_after, is_other,
}
use gdom.Queue.Order.{ArePlaced, change_plan-ArePlaced, change_plan-others}
use gdom.Queue.Moved.{IsMoved, change_plan-IsMoved}
use gdom.Queue.Removal.{IsRemoved, remove_plan-IsRemoved}

abbrev waiting : ℕ → ℕ → MigrationJob
waiting id place = record new { id = id; status = queued; queue_position = some (pos place) }

abbrev ready : MigrationJob
ready = record new { id = 9; status = ready_for_review }

-- Listed by the store out of order, and with a gap.
abbrev listed : List MigrationJob
listed = waiting 2 4 ∷ (ready ∷ (waiting 1 2 ∷ []))

abbrev moved : MigrationJob
moved = record ready { status = queued; queue_position = some (pos 1) }

abbrev planned : List MigrationJob
planned = moved ∷ (waiting 1 2 ∷ (waiting 2 4 ∷ []))

plan : change_plan listed 9 (some (pos 1)) false ≡ ok planned
unfolding change_plan find_job queued_others sort_jobs insert_job not_after insert_index insert_at
    to_i64 Transfer.enqueue
plan = refl

abbrev stored : List MigrationJob
stored = moved ∷ (waiting 1 2 ∷ (waiting 2 3 ∷ []))

numbered : number_jobs 0 planned ≡ ok stored
unfolding number_jobs place_job to_i64 Transfer.set_queue_position
numbered = refl

-- The third job stands at the head.
change_plan-IsMoved_example : IsMoved 9 (some (pos 1)) planned
change_plan-IsMoved_example = change_plan-IsMoved listed 9 (some (pos 1)) false plan

-- The three have the positions 1, 2 and 3.
change_plan-ArePlaced_example : ArePlaced 0 stored
change_plan-ArePlaced_example = change_plan-ArePlaced listed 9 (some (pos 1)) false plan numbered

-- The two others stand as they stood.
change_plan-others_example :
    AreOrdered (filter (is_other 9) planned)
    × Perm
        (filter (is_other 9) planned)
        (filter (λ job. is_queued job.status && is_other 9 job) listed)
change_plan-others_example = change_plan-others listed 9 (some (pos 1)) false plan

abbrev left : MigrationJob
left = record (waiting 1 2) { status = ready_for_review; queue_position = none }

removal : remove_plan listed 1 ready_for_review ≡ ok (waiting 2 4 ∷ (left ∷ []))
unfolding remove_plan find_job queued_others sort_jobs insert_job not_after
    Transfer.remove_from_queue
removal = refl

closed : number_jobs 0 (waiting 2 4 ∷ (left ∷ [])) ≡ ok (waiting 2 1 ∷ (left ∷ []))
unfolding number_jobs place_job to_i64 Transfer.set_queue_position
closed = refl

-- The second job closes up when the first leaves the queue.
remove_plan-IsRemoved_example : IsRemoved listed 1 ready_for_review (waiting 2 1 ∷ (left ∷ []))
remove_plan-IsRemoved_example = remove_plan-IsRemoved listed 1 ready_for_review removal closed
