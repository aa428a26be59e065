-- ===== src/Transfer/Halts.antt =====
-- Where a run of a job ends: the status that each halt leaves, and that a run refuses to start.
use gdom.Base.{
  Result, ℕ, ◌≡◌, refl, ap, sym, subst, ◌∙◌, String, Bool, true, false, ok, err, arith, ltb,
  if◌then◌else◌,
}
use gdom.Base.State.{M, on_world, ◌>>=◌}
use gdom.Job.Status.{
  JobStatus, running_canary, running, canary_review, completed, completed_with_errors,
  source_rate_limited, waiting_for_quota, auth_required, paused, cancelled, JobError,
}
use gdom.Job.Types.{MigrationJob, JobOutcome}
use gdom.Job.Transfer
use gdom.Transfer.Types.{TransferRun, TransferHalt, TransferError}
use gdom.Transfer.Run.{is_canary, settle_job, on_job, now, apply_halt}
use gdom.Transfer.Hoare.{Ends, Triple, bind_rule, held_rule, on_world_rule, before, if_rule}

-- The status that a halt leads to from a run's.
abbrev pub status_after : JobStatus → TransferHalt → JobStatus
status_after running_canary (TransferHalt.exhausted _ _) = canary_review
status_after _ (TransferHalt.exhausted _ failed) =
    if ltb 0 failed then completed_with_errors else completed
status_after _ (TransferHalt.sharing_rate_limited _) = source_rate_limited
status_after _ (TransferHalt.waiting_for_quota _) = waiting_for_quota
status_after _ (TransferHalt.auth_required _ _) = auth_required
status_after _ TransferHalt.paused = paused
status_after _ TransferHalt.cancelled = cancelled

abbrev pub is_running : JobStatus → Bool
is_running running_canary = true
is_running running = true
is_running _ = false

module _ {W : Type 0} {Bad : TransferError → MigrationJob → Type 0}
    {P Q : MigrationJob → Type 0} where
  -- A method that may refuse.
  pub try_job_rule :
      (method : MigrationJob → JobOutcome)
      → ((job : MigrationJob) → P job → (method job).1 ≡ ok tt → Q (method job).0)
      → ((job : MigrationJob) (e : JobError)
          → P job
          → (method job).1 ≡ err e
          → Bad (TransferError.job e) (method job).0)
      → Triple {W = W} (λ _. Unit {0}) Bad P (on_job method) (λ _. Q)
  unfolding on_job settle_job
  try_job_rule method h no_ = record { holds = λ job w _ p. (tt, split job w p (method job) refl) }
    where
      split :
          (job : MigrationJob) (w : W)
          → P job
          → (r : JobOutcome) → method job ≡ r
          → Ends Bad (λ (_ : Unit {0}). Q) (settle_job r w).0 (settle_job r w).1.0
      split job w p (now_, ok tt) e = subst Q (ap (λ r. r.0) e) (h job p (ap (λ r. r.1) e))
      split job w p (now_, err x) e =
          subst (Bad (TransferError.job x)) (ap (λ r. r.0) e) (no_ job x p (ap (λ r. r.1) e))

unrefused : {r : Result JobError (Unit {0})} {e : JobError} → r ≡ ok tt → r ≡ err e → ⊥
unrefused granted refused = cc

module _ {W : Type 0} {Bad : TransferError → MigrationJob → Type 0}
    {P Q : MigrationJob → Type 0} where
  -- A method that grants its call from every job that meets P.
  pub on_job_rule :
      (method : MigrationJob → JobOutcome)
      → ((job : MigrationJob) → P job → ((method job).1 ≡ ok tt) × Q (method job).0)
      → Triple {W = W} (λ _. Unit {0}) Bad P (on_job method) (λ _. Q)
  on_job_rule method h =
      try_job_rule method (λ job p _. (h job p).1)
        (λ job e p refused. absurd (unrefused (h job p).0 refused))

-- What the methods grant a run.
module _ (job : MigrationJob) (running_ : is_running job.status ≡ true) where
  halted :
      (message at : String)
      → (((Transfer.pause_sharing_rate_limit job message).1 ≡ ok tt)
          × ((Transfer.pause_sharing_rate_limit job message).0.status ≡ source_rate_limited))
        × ((((Transfer.wait_for_quota job message).1 ≡ ok tt)
              × ((Transfer.wait_for_quota job message).0.status ≡ waiting_for_quota))
            × ((((Transfer.require_auth job message).1 ≡ ok tt)
                  × ((Transfer.require_auth job message).0.status ≡ auth_required))
                × ((((Transfer.pause_transfer job).1 ≡ ok tt)
                      × ((Transfer.pause_transfer job).0.status ≡ paused))
                    × (((Transfer.cancel_job job at).1 ≡ ok tt)
                        × ((Transfer.cancel_job job at).0.status ≡ cancelled)))))
  unfolding Transfer.pause_sharing_rate_limit Transfer.wait_for_quota Transfer.require_auth
      Transfer.pause_transfer Transfer.cancel_job
  halted message at = ground arith

pub finished :
    (job : MigrationJob) (at : String) (v f : ℕ)
    → job.status ≡ running
    → ((Transfer.complete_transfer job at (ltb 0 f)).1 ≡ ok tt)
      × ((Transfer.complete_transfer job at (ltb 0 f)).0.status
          ≡ status_after running (TransferHalt.exhausted v f))
unfolding Transfer.complete_transfer
finished job at v f h = ground arith

reviewed :
    (job : MigrationJob)
    → job.status ≡ running_canary
    → ((Transfer.complete_canary job).1 ≡ ok tt)
      × ((Transfer.complete_canary job).0.status ≡ canary_review)
unfolding Transfer.complete_canary
reviewed job h = ground arith

canary_start : (s : JobStatus) {t : JobStatus} → s ≡ t → is_canary t ≡ true → s ≡ running_canary
canary_start s e h = ground arith

bulk_start :
    (s : JobStatus) {t : JobStatus}
    → s ≡ t
    → is_canary t ≡ false
    → is_running s ≡ true
    → s ≡ running
bulk_start s e c h = ground arith

no_error : {A : Type 0} {a : A} {e : TransferError} → ok a ≡ err e → ⊥
no_error h = cc

module _ {W : Type 0} (run : TransferRun W) (Bad : TransferError → MigrationJob → Type 0)
    (start : JobStatus) where
  at_start :
      (job : MigrationJob)
      → job.status ≡ start
      → is_running start ≡ true
      → is_running job.status ≡ true
  at_start job e h = rw e h

  to_review :
      (job : MigrationJob) (v f : ℕ)
      → job.status ≡ start
      → start ≡ running_canary
      → ((Transfer.complete_canary job).1 ≡ ok tt)
        × ((Transfer.complete_canary job).0.status
            ≡ status_after start (TransferHalt.exhausted v f))
  to_review job v f e c =
      subst
        (λ s.
          ((Transfer.complete_canary job).1 ≡ ok tt)
          × ((Transfer.complete_canary job).0.status ≡ status_after s (TransferHalt.exhausted v f)))
        (sym c) (reviewed job (e ∙ c))

  to_end :
      (job : MigrationJob) (at : String) (v f : ℕ)
      → job.status ≡ start
      → start ≡ running
      → ((Transfer.complete_transfer job at (ltb 0 f)).1 ≡ ok tt)
        × ((Transfer.complete_transfer job at (ltb 0 f)).0.status
            ≡ status_after start (TransferHalt.exhausted v f))
  to_end job at v f e c =
      subst
        (λ s.
          ((Transfer.complete_transfer job at (ltb 0 f)).1 ≡ ok tt)
          × ((Transfer.complete_transfer job at (ltb 0 f)).0.status
              ≡ status_after s (TransferHalt.exhausted v f)))
        (sym c) (finished job at v f (e ∙ c))

  pub at_now :
      {P : MigrationJob → Type 0} {A : Type 0} {Q : A → MigrationJob → Type 0}
      (k : String → M (MigrationJob × W) TransferError A)
      → ((at : String) → Triple (λ _. Unit {0}) Bad P (k at) Q)
      → Triple (λ _. Unit {0}) Bad P (on_world (now run) >>= k) Q
  unfolding now
  at_now k h =
      bind_rule (on_world_rule (now run) (λ w _. tt) (λ e job w p failed. absurd (no_error failed)))
        λ at. before (h at) (λ job p. p.0)

  finish_run_triple :
      (v f : ℕ)
      → is_running start ≡ true
      → Triple
          (λ _. Unit {0})
          Bad
          (λ job. job.status ≡ start)
          (apply_halt run (TransferHalt.exhausted v f))
          (λ _ job. job.status ≡ status_after start (TransferHalt.exhausted v f))
  unfolding apply_halt
  finish_run_triple v f h = bind_rule held_rule λ job.
      if_rule (is_canary job.status)
        (λ e. on_job_rule _ (λ now_ p.
          to_review now_ v f p.0 (canary_start start (sym p.0 ∙ ap (λ j. j.status) (sym p.1)) e)))
        (λ e. at_now _ (λ at. on_job_rule _ (λ now_ p.
          to_end now_ at v f p.0 (bulk_start start (sym p.0 ∙ ap (λ j. j.status) (sym p.1)) e h))))

  pub apply_halt_triple :
      (halt : TransferHalt)
      → is_running start ≡ true
      → Triple
          (λ _. Unit {0})
          Bad
          (λ job. job.status ≡ start)
          (apply_halt run halt)
          (λ _ job. job.status ≡ status_after start halt)
  unfolding apply_halt
  apply_halt_triple (TransferHalt.exhausted v f) h = finish_run_triple v f h
  apply_halt_triple (TransferHalt.sharing_rate_limited message) h =
      on_job_rule _ (λ job e. (halted job (at_start job e h) message "").0)
  apply_halt_triple (TransferHalt.waiting_for_quota message) h =
      on_job_rule _ (λ job e. (halted job (at_start job e h) message "").1.0)
  apply_halt_triple (TransferHalt.auth_required message role) h =
      on_job_rule _ (λ job e. (halted job (at_start job e h) message "").1.1.0)
  apply_halt_triple TransferHalt.paused h =
      on_job_rule _ (λ job e. (halted job (at_start job e h) "" "").1.1.1.0)
  apply_halt_triple TransferHalt.cancelled h =
      at_now _ (λ at. on_job_rule _ (λ job e. (halted job (at_start job e h) "" at).1.1.1.1))
