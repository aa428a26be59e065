-- ===== src/Transfer/Retries.antt =====
-- How often `retry` calls Drive.
use gdom.Base.{ℕ, zero, suc, ◌+◌, ◌-◌, ◌≤◌, ◌≡◌, ◌∙◌, Result, ok, err, arith}
use gdom.Base.State.{M, settle, handle, return, throw, on_world}
use gdom.Drive.Failure.{DriveTransferFailure}
use gdom.Backoff.{max_retry_attempts}
use gdom.Item.State.{MigrationItem}
use gdom.Transfer.Types.{TransferRun, TransferPhase, StepOutcome}
use gdom.Transfer.Steps.{retry, retry_loop, retry_after, back_off, classify}

-- A count of calls that the sleeper and the jitter leave alone.
module _ {W : Type 0} (run : TransferRun W) {A : Type 0} (phase : TransferPhase)
    (op : M W DriveTransferFailure A) (calls : W → ℕ)
    (counted : (w : W) → calls (op w).1 ≡ calls w + 1)
    (sleep_uncounted : (secs : ℕ) (w : W) → calls (run.sleep secs w) ≡ calls w)
    (jitter_uncounted : (w : W) → calls (run.jitter_secs w).1 ≡ calls w) where
  back_off-calls : (attempt : ℕ) (w : W) → calls (back_off run attempt w) ≡ calls w
  unfolding back_off
  back_off-calls attempt w = sleep_uncounted _ _ ∙ jitter_uncounted w

  again-calls :
      (left : ℕ) (again : W → Result StepOutcome A × W)
      → ((w : W) → calls (again w).1 ≤ calls w + (left + 1))
      → (attempt : ℕ) (outcome : StepOutcome) (w : W)
      → calls (retry_after run again attempt outcome w).1 ≤ calls w + (left + 1)
  unfolding retry_after
  again-calls left again h attempt (StepOutcome.retryable _) w =
      omega (arith, h (back_off run attempt w), back_off-calls attempt w)
  again-calls left again h attempt _ w = omega arith

  settle-calls :
      (n : ℕ) (r : Result DriveTransferFailure A)
      (f : DriveTransferFailure → W → Result StepOutcome A × W) (w : W)
      → ((e : DriveTransferFailure) → calls (f e w).1 ≤ calls w + n)
      → calls (settle r return f w).1 ≤ calls w + n
  unfolding settle return
  settle-calls n (ok a) f w h = omega arith
  settle-calls n (err e) f w h = h e

  retry_loop-calls :
      (left : ℕ) (w : W) → calls (retry_loop run phase op left w).1 ≤ calls w + (left + 1)
  unfolding retry_loop handle throw
  retry_loop-calls zero w = omega (
    arith,
    counted w,
    settle-calls 0 (op w).0 (λ failure. throw (classify failure phase)) (op w).1 (λ e. omega arith),
  )
  retry_loop-calls (suc left) w = omega (
    arith,
    counted w,
    settle-calls (left + 1) (op w).0
        (λ failure.
          retry_after run (retry_loop run phase op left) (max_retry_attempts - suc left)
            (classify failure phase))
        (op w).1
        (λ e.
          again-calls left (retry_loop run phase op left) (retry_loop-calls left)
            (max_retry_attempts - suc left) (classify e phase) (op w).1),
  )

  -- However often a request to Drive fails, `retry` makes it at most seven times: once, and once for
  -- each of the six attempts that it may wait for.
  pub retry-calls :
      (item : MigrationItem) (w : W) → calls (retry run phase op (item, w)).1.1 ≤ calls w + 7
  unfolding retry on_world
  retry-calls item w = retry_loop-calls max_retry_attempts w
