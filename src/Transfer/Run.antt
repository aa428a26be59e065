-- ===== src/Transfer/Run.antt =====
-- src-tauri/src/application/transfer.rs: the loop over items, the canary batch and the two runs of
-- a job. A run's state is the job and the world.
use gdom.Base.{
  ℕ, ◌+◌, ltb, String, List, [], ◌∷◌, Bool, true, false, not, Option, none, some, Result, ok, err,
  if◌then◌else◌, any, all, filter, take,
}
use gdom.Base.State.{M, return, throw, modify, ◌>>=◌, ◌>>◌, map_err, held, on_world}
use gdom.Time.{iso_text}
use gdom.Job.Status.{JobStatus}
use gdom.Job.Types.{MigrationJob, JobOutcome}
use gdom.Job.Transfer
use gdom.Item.State.{ItemState, MigrationItem, is_terminal, is_eligible}
use gdom.Transfer.Types.{
  TransferError, TransferHalt, StepError, TransferRun, JobRuntimeEvent, migration_progress,
}
use gdom.Transfer.Steps.{apply_state}
use gdom.Transfer.Item.{transfer_one}

-- `is_some_and(|flag| flag.load(..))`.
is_raised : {W : Type 0} → Option (W → Bool) → W → Bool
is_raised none w = false
is_raised (some flag) w = flag w

-- `StepError::into_transfer`.
unfoldable pub into_transfer : StepError → TransferError
into_transfer (StepError.fatal e) = e
into_transfer (StepError.halt _) = TransferError.invalid_item_state
into_transfer StepError.failed = TransferError.invalid_item_state

abbrev pub is_verified : ItemState → Bool
is_verified ItemState.verified = true
is_verified _ = false

module _ {W : Type 0} (run : TransferRun W) where
  unfoldable pub stop_requested : W → Option TransferHalt
  unfolding is_raised
  stop_requested w =
      if is_raised run.cancel w
      then some TransferHalt.cancelled
      else if is_raised run.pause w
      then some TransferHalt.paused
      else none

  send : (JobRuntimeEvent → W → W) → Option String → M W TransferError (Unit {0})
  send sink current_path = do
    aggregates ← map_err TransferError.store (run.store_port.item_aggregates run.job_id)
    modify (sink (migration_progress run.job_id aggregates.completed aggregates.total current_path))

  unfoldable pub emit_transfer_progress : Option String → M W TransferError (Unit {0})
  unfolding send
  emit_transfer_progress current_path = elim run.events [
    | none ↦ return tt
    | some sink ↦ send sink current_path
  ]

  -- What the loop does with the answer, with its two counts; `rest` is the loop over the other items.
  unfoldable pub after_attempt :
      (ℕ → ℕ → M W TransferError TransferHalt)
      → Option String
      → ℕ
      → ℕ
      → Result StepError ItemState
      → M W TransferError TransferHalt
  after_attempt rest name verified failed (ok state) =
      emit_transfer_progress name
      >> rest (if is_verified state then verified + 1 else verified) failed
  after_attempt rest name verified failed (err (StepError.halt halt)) = return halt
  after_attempt rest name verified failed (err StepError.failed) =
      emit_transfer_progress name >> rest verified (failed + 1)
  after_attempt rest name verified failed (err (StepError.fatal e)) = throw e

  -- `if let Some(halt) = self.stop_requested() { return Ok(halt) }`.
  unfoldable pub unless_stopped :
      M W TransferError TransferHalt → Option TransferHalt → M W TransferError TransferHalt
  unless_stopped go_on (some halt) = return halt
  unless_stopped go_on none = go_on

  unfoldable pub transfer_loop : List MigrationItem → ℕ → ℕ → M W TransferError TransferHalt
  unfolding after_attempt transfer_one unless_stopped
  transfer_loop [] verified failed w = (ok (TransferHalt.exhausted verified failed), w)
  transfer_loop (item ∷ items) verified failed w =
      unless_stopped
        (λ w.
          after_attempt (transfer_loop items) (some item.name) verified failed
            (transfer_one run item w).0 (transfer_one run item w).1)
        (stop_requested w) w

  unfoldable pub transfer_items : List MigrationItem → M W TransferError TransferHalt
  unfolding transfer_loop
  transfer_items items = transfer_loop items 0 0

-- `job.status() == JobStatus::RunningCanary`.
abbrev pub is_canary : JobStatus → Bool
is_canary JobStatus.running_canary = true
is_canary _ = false

abbrev pub is_exhausted : TransferHalt → Bool
is_exhausted (TransferHalt.exhausted _ _) = true
is_exhausted _ = false

-- `matches!(item.state, RetryableFailed | PermanentFailed)`.
abbrev has_failed : ItemState → Bool
has_failed ItemState.retryable_failed = true
has_failed ItemState.permanent_failed = true
has_failed _ = false

-- A run's state.
abbrev pub JobRun : Type 0 → Type 0 → Type 0
JobRun W A = M (MigrationJob × W) TransferError A

unfoldable pub settle_job :
    {W : Type 0} → JobOutcome → W → Result TransferError (Unit {0}) × (MigrationJob × W)
settle_job (job, ok _) w = (ok tt, (job, w))
settle_job (job, err e) w = (err (TransferError.job e), (job, w))

module _ {W : Type 0} where
  -- `job.method()?`.
  unfoldable pub on_job : (MigrationJob → JobOutcome) → JobRun W (Unit {0})
  unfolding settle_job
  on_job method (job, w) = settle_job (method job) w

module _ {W : Type 0} (run : TransferRun W) where
  -- `iso_now()`.
  unfoldable pub now : M W TransferError String
  now w = let (ms, w') = run.clock w in (ok (iso_text ms), w')

  -- `item.canary_selected = true` and, for a fresh batch, the first transition.
  mark : MigrationItem → MigrationItem
  mark item = record item { canary_selected = true }

  save : MigrationItem → M W TransferError (Unit {0})
  save item = map_err TransferError.store (run.store_port.save_item item)

  -- `for item in &mut in_progress`.
  unfoldable pub adopt : List MigrationItem → M W TransferError (List MigrationItem)
  unfolding mark save
  adopt [] = return []
  adopt (item ∷ items) = do
    item' ← if item.canary_selected then return item else (do save (mark item); return (mark item))
    items' ← adopt items
    return (item' ∷ items')

  begin : MigrationItem → M W TransferError MigrationItem
  begin item =
      if is_eligible item.state
      then (λ w. begun (apply_state run ItemState.pending_owner_required (item, w)))
      else return item
    where
      begun :
          Result StepError (Unit {0}) × (MigrationItem × W) → Result TransferError MigrationItem × W
      begun (ok _, (item', w)) = (ok item', w)
      begun (err e, (item', w)) = (err (into_transfer e), w)

  -- `for item in &mut batch`.
  unfoldable pub enrol : List MigrationItem → M W TransferError (List MigrationItem)
  unfolding mark save begin
  enrol [] = return []
  enrol (item ∷ items) = do
    item' ← begin (mark item)
    save item'
    items' ← enrol items
    return (item' ∷ items')

  fresh_batch : ℕ → List MigrationItem → M W TransferError (List MigrationItem)
  unfolding enrol adopt
  fresh_batch canary_size items = elim (filter (λ item. not (is_eligible item.state)) items) [
    | [] ↦ enrol (take canary_size items)
    | item ∷ rest ↦ adopt (item ∷ rest)
  ]

  unfoldable pub select_canary_batch : MigrationJob → M W TransferError (List MigrationItem)
  unfolding fresh_batch
  select_canary_batch job = do
    cohort ← map_err TransferError.store (run.store_port.list_canary_cohort job.id)
    elim cohort [
      | item ∷ rest ↦ return (filter (λ item. not (is_terminal item.state)) (item ∷ rest))
      | [] ↦ do
        items ← map_err TransferError.store (run.store_port.list_items_for_transfer job.id)
        fresh_batch job.canary_size items
    ]

  finish_run : ℕ → JobRun W (Unit {0})
  unfolding now
  finish_run failed = do
    job ← held
    if is_canary job.status then on_job Transfer.complete_canary else (do
      at ← on_world now
      on_job (λ job. Transfer.complete_transfer job at (ltb 0 failed)))

  unfoldable pub apply_halt : TransferHalt → JobRun W (Unit {0})
  unfolding finish_run
  apply_halt (TransferHalt.exhausted verified failed) = finish_run failed
  apply_halt (TransferHalt.sharing_rate_limited message) =
      on_job (λ job. Transfer.pause_sharing_rate_limit job message)
  apply_halt (TransferHalt.waiting_for_quota message) =
      on_job (λ job. Transfer.wait_for_quota job message)
  apply_halt (TransferHalt.auth_required message role) =
      on_job (λ job. Transfer.require_auth job message)
  apply_halt TransferHalt.paused = on_job Transfer.pause_transfer
  apply_halt TransferHalt.cancelled = do
    at ← on_world now
    on_job (λ job. Transfer.cancel_job job at)

  unfoldable pub execute_canary : JobRun W TransferHalt
  execute_canary = do
    on_job Transfer.start_canary
    job ← held
    batch ← on_world (select_canary_batch job)
    halt ← on_world (transfer_items run batch)
    apply_halt halt
    return halt

  -- The bulk run's own end: by the failures that the store counts.
  unfoldable pub end_bulk : ℕ → JobRun W (Unit {0})
  end_bulk job_id = do
    aggregates ← on_world (map_err TransferError.store (run.store_port.item_aggregates job_id))
    at ← on_world now
    on_job (λ job. Transfer.complete_transfer job at (ltb 0 aggregates.failed))

  unfoldable pub execute_bulk : JobRun W TransferHalt
  execute_bulk = do
    on_job Transfer.start_bulk
    job ← held
    items ← on_world (map_err TransferError.store (run.store_port.list_items_for_transfer job.id))
    halt ← on_world (transfer_items run items)
    if is_exhausted halt then end_bulk job.id else apply_halt halt
    return halt

  complete_small : JobRun W (Unit {0})
  unfolding now
  complete_small = do
    job ← held
    cohort ← on_world (map_err TransferError.store (run.store_port.list_canary_cohort job.id))
    on_job Transfer.start_bulk
    at ← on_world now
    on_job (λ job. Transfer.complete_transfer job at (any (λ item. has_failed item.state) cohort))

  unfoldable pub execute_auto_transfer : JobRun W TransferHalt
  unfolding complete_small
  execute_auto_transfer = do
    halt ← execute_canary
    if is_exhausted halt
        then (do
          job ← held
          remaining ←
              on_world (map_err TransferError.store (run.store_port.list_items_for_transfer job.id))
          if all (λ item. item.canary_selected) remaining then complete_small else return tt)
        else return tt
    return halt
