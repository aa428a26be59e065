-- ===== src/Service/Turns.antt =====
-- What a turn of the loop at the start of the program does to the stored jobs.
use gdom.Base.{
  ◌≡◌, refl, ◌⊎◌, inl, inr, ℕ, true, false, Option, none, some, Result, ok, err, arith, subst, ap,
  ◌∙◌, ◌==◌, if◌then◌else◌, String,
}
use gdom.Base.State.{◌>>=◌}
use gdom.Base.Rules.{
  Comes, Leads, consequence, bind_rule, return_rule, throw_rule, handle_rule, if_rule, weaken,
}
use gdom.Job.Status.{JobStatus, is_unfinished_mutation}
use gdom.Job.Types.{MigrationJob, JobOutcome}
use gdom.Job.Scanning.{pause_scanning}
use gdom.Job.Transfer.{require_auth, pause_transfer, set_last_error}
use gdom.Queue.Errors.{JobServiceError}
use gdom.Transfer.Types.{TransferHalt}
use gdom.Service.Startup.{
  StartupPorts, changed, revalidate_tokens, apply_checkpoint_auth_halt, pause_after, looked_at,
  require_tokens, pause_scan, reconcile_mutation, is_scanning, reconcile_job, outcome_of, proceed,
}
use gdom.Service.Laws.{is_at_rest, IsRested, IsStartup}

already_at_rest :
    (status : JobStatus)
    → is_scanning status ≡ false
    → is_unfinished_mutation status ≡ false
    → is_at_rest status ≡ true
unfolding is_unfinished_mutation
already_at_rest status quiet over = ground arith

scanning_at_work : (status : JobStatus) → is_scanning status ≡ true → is_at_rest status ≡ false
scanning_at_work status h = ground arith

mutation_at_work :
    (status : JobStatus) → is_unfinished_mutation status ≡ true → is_at_rest status ≡ false
unfolding is_unfinished_mutation
mutation_at_work status h = ground arith

module _ {W : Type 0} (ports : StartupPorts W) (stored : W → ℕ → Option MigrationJob)
    (startup : IsStartup ports stored) where
  -- What a turn for a job at work does to the stored jobs.
  pub record IsStored (job : MigrationJob) (w after : W) : Type 0 where
    pub left : MigrationJob
    pub rested : IsRested job left
    pub there : (id : ℕ) → stored after id ≡ (if job.id == id then some left else stored w id)

  abbrev Stores : MigrationJob → (W → Result JobServiceError (Unit {0}) × W) → W → W → Type 0
  Stores job m before w = Leads (λ _ _. Unit {0}) m w (λ _ after. IsStored job before after)

  changed_rule :
      (job : MigrationJob) (outcome : JobOutcome) (w : W)
      → (outcome.1 ≡ ok tt → IsRested job outcome.0)
      → Leads
          (λ _ _. Unit {0})
          (changed ports outcome)
          w
          (λ left after. (after ≡ w) × IsRested job left)
  unfolding changed
  changed_rule job (left, ok tt) w rests = return_rule _ (refl, rests refl)
  changed_rule job (left, err e) w rests = throw_rule _ tt

  -- The store has the changed job.
  persist_rule :
      (job left : MigrationJob) (previous : JobStatus) (before w : W)
      → IsRested job left
      → ((id : ℕ) → stored w id ≡ stored before id)
      → Stores job (ports.persist_status left previous) before w
  persist_rule job left previous before w rested same =
      weaken (startup.persist_status left previous w) (λ _ after done. record {
        left = left;
        rested = rested;
        there = λ id.
            subst (λ (n : ℕ). stored after id ≡ (if n == id then some left else stored before id))
              (ap (λ (j : MigrationJob). j.id) rested.0.same)
              (done id ∙ ap (λ found. if left.id == id then some left else found) (same id));
      })

  change_then_persist :
      (job : MigrationJob) (outcome : JobOutcome) (previous : JobStatus) (before w : W)
      → ((id : ℕ) → stored w id ≡ stored before id)
      → (outcome.1 ≡ ok tt → IsRested job outcome.0)
      → Stores job (do left ← changed ports outcome; ports.persist_status left previous) before w
  change_then_persist job outcome previous before w same rests =
      bind_rule (changed_rule job outcome w rests) (λ left after q.
        persist_rule job left previous before after q.1
          (λ id. ap (λ (v : W). stored v id) q.0 ∙ same id))

  require_auth-IsRested :
      (job : MigrationJob) (message : String)
      → is_at_rest job.status ≡ false
      → (require_auth job message).1 ≡ ok tt
      → IsRested job (require_auth job message).0
  unfolding require_auth
  require_auth-IsRested job message busy granted = ground arith

  pause_transfer-IsRested :
      (job : MigrationJob)
      → is_at_rest job.status ≡ false
      → (pause_transfer job).1 ≡ ok tt
      → IsRested job (pause_transfer job).0
  unfolding pause_transfer
  pause_transfer-IsRested job busy granted = ground arith

  failed_look-IsRested :
      (job : MigrationJob) (message : String)
      → is_at_rest job.status ≡ false
      → (pause_transfer (set_last_error job message)).1 ≡ ok tt
      → IsRested job (pause_transfer (set_last_error job message)).0
  unfolding pause_transfer set_last_error
  failed_look-IsRested job message busy granted = ground arith

  pause_scanning-IsRested :
      (job : MigrationJob)
      → is_at_rest job.status ≡ false
      → (pause_scanning job).1 ≡ ok tt
      → IsRested job (pause_scanning job).0
  unfolding pause_scanning
  pause_scanning-IsRested job busy granted = ground arith

  outcome_rule :
      {A : Type 0} {R : JobServiceError → W → Type 0} {Q : A → W → Type 0}
      {m : W → Result JobServiceError A × W} {w : W}
      → Leads R m w Q
      → Leads (λ _ _. Unit {0}) (outcome_of ports m) w (λ r after. Comes R Q r after)
  unfolding outcome_of
  outcome_rule h = handle_rule h (λ a after q. return_rule _ q) (λ e after r. return_rule _ r)

  proceed_rule :
      (r : Result JobServiceError (Unit {0})) {m : W → Result JobServiceError (Unit {0}) × W}
      {w : W} {Q : Unit {0} → W → Type 0}
      → (r ≡ ok tt → Leads (λ _ _. Unit {0}) m w Q)
      → Leads (λ _ _. Unit {0}) (proceed ports r m) w Q
  unfolding proceed
  proceed_rule (ok tt) next = next refl
  proceed_rule (err e) next = throw_rule _ tt

  came :
      (Q : W → Type 0) (r : Result JobServiceError (Unit {0})) (w : W)
      → Comes (λ _ _. Unit {0}) (λ _. Q) r w
      → r ≡ ok tt
      → Q w
  came Q (ok a) w q e = q
  came Q (err e) w q h = cc

  auth_halt-Stores :
      (job : MigrationJob) (halt : TransferHalt) (before w : W)
      → is_at_rest job.status ≡ false
      → ((id : ℕ) → stored w id ≡ stored before id)
      → Stores job (apply_checkpoint_auth_halt ports job halt job.status) before w
  unfolding apply_checkpoint_auth_halt
  auth_halt-Stores job (TransferHalt.auth_required message role) before w busy same =
      bind_rule
        (changed_rule job (require_auth job message) w (require_auth-IsRested job message busy))
        (λ required first q.
          bind_rule (outcome_rule (startup.mark_reauth_required _ first)) (λ marked second kept.
            bind_rule (outcome_rule (startup.persist_status required job.status second))
              (λ done third put. proceed_rule marked (λ is_marked. proceed_rule done (λ is_done.
                return_rule tt (
                  after_mark job required before w first second third q same
                    (came _ marked second kept is_marked) (came _ done third put is_done)))))))
    where
      after_mark :
          (job required : MigrationJob) (before w first second third : W)
          → (first ≡ w) × IsRested job required
          → ((id : ℕ) → stored w id ≡ stored before id)
          → ((id : ℕ) → stored second id ≡ stored first id)
          → ((id : ℕ)
              → stored third id ≡ (if required.id == id then some required else stored second id))
          → IsStored job before third
      after_mark job required before w first second third q same kept put = record {
        left = required;
        rested = q.1;
        there = λ id.
            subst
              (λ (n : ℕ). stored third id ≡ (if n == id then some required else stored before id))
              (ap (λ (j : MigrationJob). j.id) q.1.0.same)
              (put id
                ∙ ap (λ found. if required.id == id then some required else found)
                    (kept id ∙ (ap (λ (v : W). stored v id) q.0 ∙ same id)));
      }
  auth_halt-Stores job _ before w busy same = throw_rule _ tt

  mutation-Stores :
      (job : MigrationJob) (w : W)
      → is_at_rest job.status ≡ false
      → Stores job (reconcile_mutation ports job) w w
  unfolding reconcile_mutation revalidate_tokens looked_at pause_after require_tokens
  mutation-Stores job w busy =
      handle_rule (tokens (startup.get_access_token job.accounts.source w))
        (λ _ first kept.
          handle_rule (startup.reconcile_job_items job first)
            (λ halt second same. looked halt second (λ id. same id ∙ kept id))
            (λ e second same.
              change_then_persist job _ job.status w second (λ id. same id ∙ kept id)
                (failed_look-IsRested job (ports.describe e) busy)))
        (λ e first kept.
          change_then_persist job _ job.status w first kept
            (require_auth-IsRested job (ports.describe e) busy))
    where
      looked :
          (halt : Option TransferHalt) (second : W)
          → ((id : ℕ) → stored second id ≡ stored w id)
          → Stores job (looked_at ports job halt) w second
      looked none second same =
          change_then_persist job _ job.status w second same (pause_transfer-IsRested job busy)
      looked (some halt) second same = auth_halt-Stores job halt w second busy same

      tokens :
          Leads
            (λ _ after. (id : ℕ) → stored after id ≡ stored w id)
            (ports.get_access_token job.accounts.source)
            w
            (λ _ after. (id : ℕ) → stored after id ≡ stored w id)
          → Leads
              (λ _ after. (id : ℕ) → stored after id ≡ stored w id)
              (revalidate_tokens ports job)
              w
              (λ _ after. (id : ℕ) → stored after id ≡ stored w id)
      tokens h = bind_rule h (λ _ first kept.
          bind_rule
            (consequence (startup.get_access_token job.accounts.target first)
              (λ _ after same. λ id. same id ∙ kept id) (λ _ after same. λ id. same id ∙ kept id))
            (λ _ second same. return_rule tt same))

  -- A turn stores the job at rest, or has nothing to store.
  pub reconcile_job_rule :
      (job : MigrationJob) (w : W)
      → Leads
          (λ _ _. Unit {0})
          (reconcile_job ports job)
          w
          (λ _ after.
            IsStored job w after
            ⊎ ((is_at_rest job.status ≡ true) × ((id : ℕ) → stored after id ≡ stored w id)))
  unfolding reconcile_job pause_scan
  reconcile_job_rule job w =
      if_rule (is_scanning job.status)
        (λ scans.
          weaken
            (change_then_persist job (pause_scanning job) job.status w w (λ id. refl)
              (pause_scanning-IsRested job (scanning_at_work job.status scans)))
            (λ _ after put. inl put))
        (λ quiet.
          if_rule (is_unfinished_mutation job.status)
            (λ works.
              weaken (mutation-Stores job w (mutation_at_work job.status works))
                (λ _ after put. inl put))
            (λ over. return_rule tt (inr (already_at_rest job.status quiet over, λ id. refl))))
