-- ===== src/Transfer/Rules.antt =====
-- What the parts of a step do to the item: one rule for each part.
use gdom.Item.Transitions.{transition_to-ok, transition_to-err}
use gdom.Backoff.{max_retry_attempts}
use gdom.Base.{
  ◌∙◌, ap, subst, sym, ◌-◌, ◌≡◌, refl, String, true, false, Option, none, some, Result, ok, err, ℕ,
  zero, suc,
}
use gdom.Base.State.{M, handle, settle, return, throw, modify, map_err, ◌>>◌, on_world}
use gdom.Item.State.{
  ItemState, ItemError, ItemErrorDetails, MigrationItem, can_transition_to, transition_to, as_str,
}
use gdom.Drive.Failure.{DriveTransferFailure}
use gdom.Transfer.Types.{
  TransferRun, TransferPhase, StepOutcome, ItemStoreError, JobRuntimeEvent, item_state_changed,
}
use gdom.Transfer.Steps.{
  enter_or, apply_state_or, retry_after, retry, retry_loop, classify, back_off, emit,
  emit_item_state,
}
use gdom.Transfer.Reached.{IsStable}
use gdom.Transfer.Hoare.{
  Ends, Triple, bind_rule, handle_rule, return_rule, throw_rule, on_world_rule, modify_rule, after,
}

module _ {W : Type 0} (run : TransferRun W) {K : W → Type 0} (stable : IsStable run K) where
  pub back_off-kept : (attempt : ℕ) (w : W) → K w → K (back_off run attempt w)
  unfolding back_off
  back_off-kept attempt w k = stable.sleep _ _ (stable.jitter_secs w k)

  pub emit_item_state-kept : (item : MigrationItem) (w : W) → K w → K (emit_item_state run item w)
  unfolding emit_item_state
  emit_item_state-kept item w k = sent run.events refl
    where
      sent :
          (events : Option (JobRuntimeEvent → W → W))
          → run.events ≡ events
          → K (emit run events (item_state_changed run.job_id item.file_id (as_str item.state)) w)
      sent none e = k
      sent (some sink) e = stable.emit sink _ w e k

module _ {W : Type 0} (run : TransferRun W) {K : W → Type 0} (stable : IsStable run K) {E : Type 0}
    {Bad : E → MigrationItem → Type 0} {P Q : MigrationItem → Type 0} where
  -- A permitted transition changes the state, the recorded error and the time, and nothing else; a
  -- refused one is the error.
  pub apply_rule :
      (refused : E) (next : ItemState)
      → ((item : MigrationItem) (last_error : Option ItemErrorDetails) (at : String)
          → P item
          → can_transition_to item.state next ≡ true
          → Q (record item { state = next; last_error = last_error; updated_at = at }))
      → ((item : MigrationItem)
          → P item
          → can_transition_to item.state next ≡ false
          → Bad refused item)
      → Triple K Bad P (apply_state_or run refused next) (λ _. Q)
  unfolding apply_state_or
  apply_rule refused next permitted denied = record {
    holds = λ item w k p. entered item w k p (transition_to item.state next) refl;
  }
    where
      entered :
          (item : MigrationItem) (w : W)
          → K w
          → P item
          → (r : Result ItemError ItemState) → transition_to item.state next ≡ r
          → K (enter_or run refused next (item, w) r).1.1
            × Ends Bad
                (λ (_ : Unit {0}). Q)
                (enter_or run refused next (item, w) r).0
                (enter_or run refused next (item, w) r).1.0
      entered item w k p (ok state) e =
          let (same, allowed) = transition_to-ok item.state next state e in
          (
            stable.clock w k,
            subst
                (λ s.
                  (last_error : Option ItemErrorDetails) (at : String)
                  → Q (record item { state = s; last_error = last_error; updated_at = at }))
                (sym same) (λ last_error at. permitted item last_error at p allowed) _ _,
          )
      entered item w k p (err _) e = (k, denied item p (transition_to-err item.state next e))

module _ {W : Type 0} (run : TransferRun W) {K : W → Type 0} (stable : IsStable run K) {A : Type 0}
    (phase : TransferPhase) (op : M W DriveTransferFailure A)
    (keeps : (w : W) → K w → K (op w).1) where
  -- What `retry` answers is what some call answered, and it fails as some failure is classified.
  abbrev pub RetryEnds : Result StepOutcome A → Type 0
  RetryEnds (ok a) = (w : W) × (K w × ((op w).0 ≡ ok a))
  RetryEnds (err e) = (failure : DriveTransferFailure) × (e ≡ classify failure phase)

  retry_after-ends :
      (again : W → Result StepOutcome A × W) (attempt : ℕ) (failure : DriveTransferFailure)
      → ((w : W) → K w → K (again w).1 × RetryEnds (again w).0)
      → (outcome : StepOutcome) (w : W) → K w
      → outcome ≡ classify failure phase
      → K (retry_after run again attempt outcome w).1
        × RetryEnds (retry_after run again attempt outcome w).0
  unfolding retry_after
  retry_after-ends again attempt failure ends (StepOutcome.retryable _) w k e =
      ends _ (back_off-kept run stable attempt w k)
  retry_after-ends again attempt failure ends _ w k e = (k, (failure, e))

  -- The answer of one call, and what follows a failure.
  called :
      (next : DriveTransferFailure → W → Result StepOutcome A × W) (w : W)
      → K w
      → ((failure : DriveTransferFailure) (w : W)
          → K w
          → K (next failure w).1 × RetryEnds (next failure w).0)
      → (r : Result DriveTransferFailure A) → (op w).0 ≡ r
      → K (settle r return next (op w).1).1 × RetryEnds (settle r return next (op w).1).0
  unfolding settle return
  called next w k after (ok a) e = (keeps w k, (w, (k, e)))
  called next w k after (err failure) e = after failure (op w).1 (keeps w k)

  retry_loop-ends :
      (left : ℕ) (w : W)
      → K w
      → K (retry_loop run phase op left w).1 × RetryEnds (retry_loop run phase op left w).0
  unfolding retry_loop handle throw
  retry_loop-ends zero w k =
      called (λ failure. throw (classify failure phase)) w k (λ failure w k. (k, (failure, refl)))
        (op w).0 refl
  retry_loop-ends (suc left) w k =
      called
        (λ failure.
          retry_after run (retry_loop run phase op left) (max_retry_attempts - suc left)
            (classify failure phase))
        w k
        (λ failure w k.
          retry_after-ends (retry_loop run phase op left) (max_retry_attempts - suc left) failure
            (retry_loop-ends left) (classify failure phase) w k refl)
        (op w).0 refl

module _ {W : Type 0} (run : TransferRun W) {K : W → Type 0} (stable : IsStable run K)
    {Bad : StepOutcome → MigrationItem → Type 0} {P : MigrationItem → Type 0} where
  -- `retry` leaves the item alone; its answer is that of some call.
  pub retry_rule :
      {A : Type 0} (phase : TransferPhase) (op : M W DriveTransferFailure A)
      → ((w : W) → K w → K (op w).1)
      → ((failure : DriveTransferFailure) (item : MigrationItem)
          → P item
          → Bad (classify failure phase) item)
      → Triple K Bad P
          (retry run phase op)
          (λ a item. P item × ((w : W) × (K w × ((op w).0 ≡ ok a))))
  unfolding retry on_world
  retry_rule {A} phase op keeps fails = record {
    holds = λ item w k p.
        let ended = retry_loop-ends run stable phase op keeps max_retry_attempts w k in
        (ended.0, split item p (retry_loop run phase op max_retry_attempts w).0 ended.1);
  }
    where
      split :
          (item : MigrationItem)
          → P item
          → (r : Result StepOutcome A) → RetryEnds run stable phase op keeps r
          → Ends Bad (λ a item. P item × ((w : W) × (K w × ((op w).0 ≡ ok a)))) r item
      split item p (ok a) e = (p, e)
      split item p (err _) e = subst (λ outcome. Bad outcome item) (sym e.1) (fails e.0 item p)

-- Storing the item leaves it alone; the store may fail. For any of the two error types.
module _ {W : Type 0} (run : TransferRun W) {K : W → Type 0} (stable : IsStable run K) {E : Type 0}
    {Bad : E → MigrationItem → Type 0} {P : MigrationItem → Type 0} (of_store : ItemStoreError → E)
    (fails : (e : ItemStoreError) (item : MigrationItem) → P item → Bad (of_store e) item) where
  pub store_rule :
      (item : MigrationItem)
      → Triple K Bad P
          (map_err of_store (on_world (run.store_port.save_item item))
            >> on_world (modify (emit_item_state run item)))
          (λ _ now. P now × ((w : W) × (K w × ((run.store_port.save_item item w).0 ≡ ok tt))))
  unfolding map_err
  store_rule item =
      bind_rule
        (handle_rule {Bad = λ _. P}
          (after
            (on_world_rule (run.store_port.save_item item) (stable.save_item item)
              (λ e item w p _. p))
            (λ a now q. (q.0, (q.1.0, (q.1.1.0, q.1.1.1 ∙ ap ok (only a))))))
          (λ a. return_rule a (λ now p. p)) (λ e. throw_rule (of_store e) (fails e)))
        (λ _. modify_rule _ (emit_item_state-kept run stable item))
    where
      only : (a : Unit {0}) → a ≡ tt
      only a = refl
