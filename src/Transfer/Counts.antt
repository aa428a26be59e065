-- ===== src/Transfer/Counts.antt =====
-- What the loop over the items counts.
use gdom.Base.{
  Bool, filter, all, ℕ, ◌+◌, ◌≡◌, refl, String, true, false, Option, none, some, List, [], ◌∷◌,
  Result, ok, err, All, length, arith, subst, if◌then◌else◌,
}
use gdom.Base.State.{M, settle, handle, return, throw, ◌>>=◌, ◌>>◌}
use gdom.Item.State.{ItemState, MigrationItem}
use gdom.Transfer.Types.{TransferRun, TransferHalt, TransferError, StepError}
use gdom.Transfer.Table.{is_startable, is_sound_stop}
use gdom.Transfer.Guarantees.{transfer_one_sound}
use gdom.Transfer.Item.{transfer_one}
use gdom.Transfer.Run.{
  is_verified, stop_requested, unless_stopped, emit_transfer_progress, after_attempt, transfer_loop,
  transfer_items,
}

-- An answer of a step that counts an item as verified, one that counts it as failed, and one that
-- lets the loop go on to the next item.
abbrev pub says_verified : Result StepError ItemState → Bool
says_verified (ok ItemState.verified) = true
says_verified _ = false

abbrev pub says_failed : Result StepError ItemState → Bool
says_failed (err StepError.failed) = true
says_failed _ = false

abbrev pub goes_on : Result StepError ItemState → Bool
goes_on (ok state) = true
goes_on (err StepError.failed) = true
goes_on (err _) = false

abbrev pub count : (Result StepError ItemState → Bool) → List (Result StepError ItemState) → ℕ
count p answers = length (filter p answers)

-- The loop's answer adds to what was counted before one for each answer that says so.
abbrev Counted :
    List (Result StepError ItemState) → ℕ → ℕ → Result TransferError TransferHalt → Type 0
Counted answers verified failed (ok (TransferHalt.exhausted v f)) =
    (v ≡ verified + count says_verified answers)
    × ((f ≡ failed + count says_failed answers) × (all goes_on answers ≡ true))
Counted answers verified failed _ = Unit {0}

not_sound : false ≡ true → ⊥
not_sound h = cc

verified_too :
    (state : ItemState) (answers : List (Result StepError ItemState)) (v f : ℕ)
    → (r : Result TransferError TransferHalt)
    → Counted answers (if is_verified state then v + 1 else v) f r
    → Counted (ok state ∷ answers) v f r
verified_too state answers v f (ok (TransferHalt.exhausted a b)) c =
    (ground (arith, c.0), (ground (arith, c.1.0), ground (arith, c.1.1)))
verified_too state answers v f (ok _) c = tt
verified_too state answers v f (err e) c = tt

failed_too :
    (answers : List (Result StepError ItemState)) (v f : ℕ)
    → (r : Result TransferError TransferHalt) → Counted answers v (f + 1) r
    → Counted (err StepError.failed ∷ answers) v f r
failed_too answers v f (ok (TransferHalt.exhausted a b)) c =
    (omega (arith, c.0), (omega (arith, c.1.0), c.1.1))
failed_too answers v f (ok _) c = tt
failed_too answers v f (err e) c = tt

module _ {W : Type 0} (run : TransferRun W) where
  -- What the steps answer, one for each item in its turn: the next item is taken up in the world that
  -- the one before and its progress event left.
  abbrev pub answers_of : List MigrationItem → W → List (Result StepError ItemState)
  answers_of [] w = []
  answers_of (item ∷ items) w =
      (transfer_one run item w).0
      ∷ answers_of items (emit_transfer_progress run (some item.name) (transfer_one run item w).1).1

  -- What follows a progress event that may fail.
  then-Counted :
      (answers : List (Result StepError ItemState)) (v f : ℕ) (m : M W TransferError (Unit {0}))
      (k : M W TransferError TransferHalt) (w : W)
      → Counted answers v f (k (m w).1).0
      → Counted answers v f ((m >> k) w).0
  unfolding ◌>>=◌ handle settle throw
  then-Counted answers v f m k w h = settled (m w).0
    where
      settled :
          (r : Result TransferError (Unit {0}))
          → Counted answers v f (settle r (λ _. k) throw (m w).1).0
      settled (ok a) = h
      settled (err e) = tt

  after_attempt-Counted :
      (answers : List (Result StepError ItemState)) (rest : ℕ → ℕ → M W TransferError TransferHalt)
      (name : Option String) (w : W)
      → ((v f : ℕ) → Counted answers v f (rest v f (emit_transfer_progress run name w).1).0)
      → (v f : ℕ) (r : Result StepError ItemState)
      → ((e : StepError) → r ≡ err e → is_sound_stop e ≡ true)
      → Counted (r ∷ answers) v f (after_attempt run rest name v f r w).0
  unfolding after_attempt return throw
  after_attempt-Counted answers rest name w h v f (ok state) s =
      let v' = if is_verified state then v + 1 else v in
      verified_too state answers v f _
        (then-Counted answers v' f (emit_transfer_progress run name) (rest v' f) w (h v' f))
  after_attempt-Counted answers rest name w h v f (err StepError.failed) s =
      failed_too answers v f _ (
        then-Counted answers v (f + 1) (emit_transfer_progress run name) (rest v (f + 1)) w
          (h v (f + 1)))
  after_attempt-Counted answers rest name w h v f
        (err (StepError.halt (TransferHalt.exhausted a b))) s =
      absurd (not_sound (s _ refl))
  after_attempt-Counted answers rest name w h v f (err (StepError.halt _)) s = tt
  after_attempt-Counted answers rest name w h v f (err (StepError.fatal e)) s = tt

  stop_requested-Counted :
      (answers : List (Result StepError ItemState)) (v f : ℕ) (w : W) (halt : TransferHalt)
      → stop_requested run w ≡ some halt
      → Counted answers v f (ok halt)
  unfolding stop_requested
  stop_requested-Counted answers v f w (TransferHalt.exhausted a b) h = absurd (ground arith)
  stop_requested-Counted answers v f w _ h = tt

  unless_stopped-Counted :
      (answers : List (Result StepError ItemState)) (v f : ℕ)
      (go_on : M W TransferError TransferHalt) (w : W) (o : Option TransferHalt)
      → stop_requested run w ≡ o
      → Counted answers v f (go_on w).0
      → Counted answers v f (unless_stopped run go_on o w).0
  unfolding unless_stopped return
  unless_stopped-Counted answers v f go_on w (some halt) e h =
      stop_requested-Counted answers v f w halt e
  unless_stopped-Counted answers v f go_on w none e h = h

  transfer_loop-Counted :
      (items : List MigrationItem) (v f : ℕ) (w : W)
      → All (λ item. is_startable item.state ≡ true) items
      → Counted (answers_of items w) v f (transfer_loop run items v f w).0
  unfolding transfer_loop
  transfer_loop-Counted [] v f w h = (omega arith, (omega arith, refl))
  transfer_loop-Counted (item ∷ items) v f w h =
      unless_stopped-Counted (answers_of (item ∷ items) w) v f _ w (stop_requested run w) refl (
        after_attempt-Counted
          (answers_of items
            (emit_transfer_progress run (some item.name) (transfer_one run item w).1).1)
          (transfer_loop run items) (some item.name) (transfer_one run item w).1
          (λ v f. transfer_loop-Counted items v f _ h.1) v f (transfer_one run item w).0
          (transfer_one_sound run item w h.0))

  -- If every item of a run is in a startable state (any active state but pending_owner_created), a run
  -- that exhausts the items has stepped through each of them: it counts as verified exactly the items
  -- whose step answered `verified`, as failed exactly those whose step failed, and every step answered a
  -- state or failed.
  pub transfer_items-counts :
      (items : List MigrationItem) (w : W) (v f : ℕ)
      → All (λ item. is_startable item.state ≡ true) items
      → (transfer_items run items w).0 ≡ ok (TransferHalt.exhausted v f)
      → (v ≡ count says_verified (answers_of items w))
        × ((f ≡ count says_failed (answers_of items w)) × (all goes_on (answers_of items w) ≡ true))
  unfolding transfer_items
  transfer_items-counts items w v f h e =
      let counted =
        subst (Counted (answers_of items w) 0 0) e (transfer_loop-Counted items 0 0 w h) in
      (omega (arith, counted.0), (omega (arith, counted.1.0), counted.1.1))
