-- ===== src/Transfer/Runs.antt =====
-- Where a canary and a bulk run leave the job.
use gdom.Base.{
  ℕ, ◌≡◌, refl, subst, ◌∙◌, ◌⊎◌, inl, inr, String, true, false, Result, ok, err, arith, ltb,
}
use gdom.Base.State.{M, handle, settle, throw, ◌>>=◌}
use gdom.Job.Status.{JobStatus, running_canary, running, completed, completed_with_errors, JobError}
use gdom.Job.Types.{MigrationJob, JobOutcome}
use gdom.Job.Transfer
use gdom.Transfer.Types.{TransferRun, TransferHalt, TransferError}
use gdom.Transfer.Run.{
  is_exhausted, end_bulk, settle_job, on_job, execute_canary, execute_bulk, select_canary_batch,
  transfer_items,
}
use gdom.Transfer.Halts.{
  status_after, on_job_rule, try_job_rule, at_now, finished, apply_halt_triple,
}
use gdom.Transfer.Hoare.{
  Ends, Triple, bind_rule, return_rule, held_rule, on_world_rule, after, if_rule,
}

-- The start of a run grants the call, or refuses it and leaves the job alone.
started_canary :
    (job : MigrationJob)
    → ((Transfer.start_canary job).1 ≡ ok tt
        → (Transfer.start_canary job).0.status ≡ running_canary)
      × ((e : JobError)
          → (Transfer.start_canary job).1 ≡ err e
          → (Transfer.start_canary job).0 ≡ job)
unfolding Transfer.start_canary
started_canary job = (λ h. ground arith, λ e h. ground arith)

started_bulk :
    (job : MigrationJob)
    → ((Transfer.start_bulk job).1 ≡ ok tt → (Transfer.start_bulk job).0.status ≡ running)
      × ((e : JobError) → (Transfer.start_bulk job).1 ≡ err e → (Transfer.start_bulk job).0 ≡ job)
unfolding Transfer.start_bulk
started_bulk job = (λ h. ground arith, λ e h. ground arith)

-- The bulk run ends by the failures of the whole job, not of this run alone.
abbrev pub BulkEnd : TransferHalt → JobStatus → Type 0
BulkEnd (TransferHalt.exhausted _ _) status =
    (status ≡ completed) ⊎ (status ≡ completed_with_errors)
BulkEnd halt status = status ≡ status_after running halt

bulk_halt :
    (halt : TransferHalt) (s : JobStatus)
    → is_exhausted halt ≡ false
    → s ≡ status_after running halt
    → BulkEnd halt s
bulk_halt (TransferHalt.exhausted v f) s e h = absurd (ground arith)
bulk_halt _ s e h = h

bulk_finished :
    (halt : TransferHalt) (job : MigrationJob) (at : String) (failed : ℕ)
    → is_exhausted halt ≡ true
    → job.status ≡ running
    → ((Transfer.complete_transfer job at (ltb 0 failed)).1 ≡ ok tt)
      × BulkEnd halt (Transfer.complete_transfer job at (ltb 0 failed)).0.status
bulk_finished (TransferHalt.exhausted v f) job at failed e h =
    ground (arith, finished job at v failed h)
bulk_finished _ job at failed e h = absurd (ground arith)

-- How an error leaves the job: untouched by a refused start, or in the run's status.
abbrev pub Interrupted : MigrationJob → JobStatus → TransferError → MigrationJob → Type 0
Interrupted old status e job = (job ≡ old) ⊎ (job.status ≡ status)

module _ {W : Type 0} (run : TransferRun W) (old : MigrationJob) where
  execute_canary_triple :
      Triple
        (λ _. Unit {0})
        (Interrupted old running_canary)
        (λ job. job ≡ old)
        (execute_canary run)
        (λ halt job. job.status ≡ status_after running_canary halt)
  unfolding execute_canary
  execute_canary_triple =
      bind_rule {Q = λ _ job. job.status ≡ running_canary}
        (try_job_rule Transfer.start_canary (λ job p granted. (started_canary job).0 granted)
          (λ job e p refused. inl ((started_canary job).1 e refused ∙ p)))
        λ _. bind_rule held_rule λ job.
          bind_rule {Q = λ _ job. job.status ≡ running_canary}
            (after
              (on_world_rule (select_canary_batch run job) (λ w _. tt) (λ e now_ w p _. inr p.0))
              (λ a now_ p. p.0.0))
            λ batch.
              bind_rule {Q = λ _ job. job.status ≡ running_canary}
                (after
                  (on_world_rule (transfer_items run batch) (λ w _. tt) (λ e now_ w p _. inr p))
                  (λ a now_ p. p.0))
                λ halt.
                  bind_rule
                    (apply_halt_triple run (Interrupted old running_canary) running_canary halt
                      refl)
                    λ _. return_rule halt (λ now_ p. p)

  ended_triple :
      (job_id : ℕ) (halt : TransferHalt)
      → is_exhausted halt ≡ true
      → Triple
          (λ _. Unit {0})
          (Interrupted old running)
          (λ job. job.status ≡ running)
          (end_bulk run job_id)
          (λ _ job. BulkEnd halt job.status)
  unfolding end_bulk
  ended_triple job_id halt e =
      bind_rule {Q = λ _ job. job.status ≡ running}
        (after (on_world_rule _ (λ w _. tt) (λ e now_ w p _. inr p)) (λ a now_ p. p.0))
        λ aggregates.
          at_now run (Interrupted old running) running _
            λ at. on_job_rule _ (λ job p. bulk_finished halt job at aggregates.failed e p)

  execute_bulk_triple :
      Triple
        (λ _. Unit {0})
        (Interrupted old running)
        (λ job. job ≡ old)
        (execute_bulk run)
        (λ halt job. BulkEnd halt job.status)
  unfolding execute_bulk
  execute_bulk_triple =
      bind_rule {Q = λ _ job. job.status ≡ running}
        (try_job_rule Transfer.start_bulk (λ job p granted. (started_bulk job).0 granted)
          (λ job e p refused. inl ((started_bulk job).1 e refused ∙ p)))
        λ _. bind_rule held_rule λ job.
          bind_rule {Q = λ _ job. job.status ≡ running}
            (after (on_world_rule _ (λ w _. tt) (λ e now_ w p _. inr p.0)) (λ a now_ p. p.0.0))
            λ items.
              bind_rule {Q = λ _ job. job.status ≡ running}
                (after
                  (on_world_rule (transfer_items run items) (λ w _. tt) (λ e now_ w p _. inr p))
                  (λ a now_ p. p.0))
                λ halt.
                  bind_rule {Q = λ _ job. BulkEnd halt job.status}
                    (if_rule (is_exhausted halt) (λ e. ended_triple job.id halt e)
                      (λ e.
                        after (apply_halt_triple run (Interrupted old running) running halt refl)
                          (λ a now_ p. bulk_halt halt now_.status e p)))
                    λ _. return_rule halt (λ now_ p. p)

module _ {W : Type 0} (run : TransferRun W) (job : MigrationJob) (w : W) where
  canary-Ends :
      (r : Result TransferError TransferHalt)
      → (execute_canary run (job, w)).0 ≡ r
      → Ends
          (Interrupted job running_canary)
          (λ halt now_. now_.status ≡ status_after running_canary halt)
          r
          (execute_canary run (job, w)).1.0
  canary-Ends r e =
      subst
        (λ r.
          Ends (Interrupted job running_canary)
            (λ halt now_. now_.status ≡ status_after running_canary halt) r
            (execute_canary run (job, w)).1.0)
        e ((execute_canary_triple run job).holds job w tt refl).1

  bulk-Ends :
      (r : Result TransferError TransferHalt)
      → (execute_bulk run (job, w)).0 ≡ r
      → Ends
          (Interrupted job running)
          (λ halt now_. BulkEnd halt now_.status)
          r
          (execute_bulk run (job, w)).1.0
  bulk-Ends r e =
      subst
        (λ r.
          Ends (Interrupted job running) (λ halt now_. BulkEnd halt now_.status) r
            (execute_bulk run (job, w)).1.0)
        e ((execute_bulk_triple run job).holds job w tt refl).1

  -- A canary run that answers a halt leaves the job in the status of that halt: reviewed when the
  -- batch is exhausted, whatever failed in it.
  pub execute_canary-status :
      (halt : TransferHalt)
      → (execute_canary run (job, w)).0 ≡ ok halt
      → (execute_canary run (job, w)).1.0.status ≡ status_after running_canary halt
  execute_canary-status halt e = canary-Ends (ok halt) e

  -- A bulk run that answers a halt leaves the job in the status of that halt, and completed, with or
  -- without errors, exactly when it exhausted its items.
  pub execute_bulk-status :
      (halt : TransferHalt)
      → (execute_bulk run (job, w)).0 ≡ ok halt
      → BulkEnd halt (execute_bulk run (job, w)).1.0.status
  execute_bulk-status halt e = bulk-Ends (ok halt) e

  -- A canary run that ends in an error leaves the job exactly as it was, or in the status
  -- `running_canary`.
  pub execute_canary-interrupted :
      (e : TransferError)
      → (execute_canary run (job, w)).0 ≡ err e
      → ((execute_canary run (job, w)).1.0 ≡ job)
        ⊎ ((execute_canary run (job, w)).1.0.status ≡ running_canary)
  execute_canary-interrupted e h = canary-Ends (err e) h

  -- A bulk run that ends in an error leaves the job as it was, or in `running`.
  pub execute_bulk-interrupted :
      (e : TransferError)
      → (execute_bulk run (job, w)).0 ≡ err e
      → ((execute_bulk run (job, w)).1.0 ≡ job) ⊎ ((execute_bulk run (job, w)).1.0.status ≡ running)
  execute_bulk-interrupted e h = bulk-Ends (err e) h

  refused :
      (e : JobError) (method : MigrationJob → JobOutcome)
      (k : Unit {0} → M (MigrationJob × W) TransferError TransferHalt)
      → (method job).1 ≡ err e
      → (method job).0 ≡ job
      → (on_job method >>= k) (job, w) ≡ (err (TransferError.job e), (job, w))
  unfolding ◌>>=◌ handle settle on_job settle_job throw
  refused e method k h same = rw (h, same) refl

  -- A canary run of a job that may not start one is refused before anything is read, sent or stored:
  -- the world and the job are as they were.
  pub execute_canary-refused :
      (e : JobError)
      → (Transfer.start_canary job).1 ≡ err e
      → execute_canary run (job, w) ≡ (err (TransferError.job e), (job, w))
  unfolding execute_canary
  execute_canary-refused e h = refused e Transfer.start_canary _ h ((started_canary job).1 e h)

  -- A bulk run of a job whose canary was not reviewed is refused in the same way.
  pub execute_bulk-refused :
      (e : JobError)
      → (Transfer.start_bulk job).1 ≡ err e
      → execute_bulk run (job, w) ≡ (err (TransferError.job e), (job, w))
  unfolding execute_bulk
  execute_bulk-refused e h = refused e Transfer.start_bulk _ h ((started_bulk job).1 e h)
