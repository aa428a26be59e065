-- ===== src/Backoff/Bounds.antt =====
-- The delays follow the documented formula at every attempt.
use gdom.Base.{ℕ, zero, suc, ◌≡◌, ◌+◌, ◌^◌, ◌<◌, min, arith}
use native.Mathlib.Nat.{pow-suc}
use gdom.Backoff.{backoff_delay}

lt-pow : (n : ℕ) → n < 2 ^ n
lt-pow zero = omega arith
lt-pow (suc n) = omega (arith, lt-pow n, pow-suc 2 n)

-- The delay is the lesser of 2 ^ attempt plus the jitter and 64 seconds, for every attempt and
-- jitter: neither the refused shift nor the saturating sum shows.
pub backoff_delay_formula :
    (attempt jitter : ℕ) → backoff_delay attempt jitter ≡ min (2 ^ attempt + jitter) 64
unfolding backoff_delay
backoff_delay_formula attempt jitter = ground (arith, lt-pow attempt)
