-- ===== src/Backoff.antt =====
-- src-tauri/src/application/backoff.rs: the delays between retries, in seconds. The jitter source
-- and the sleeper are parameters of the callers.
mod Bounds
use gdom.Base.{ℕ, ◌+◌, ◌^◌, min, if◌then◌else◌, ltb}

abbrev pub max_retry_attempts : ℕ
max_retry_attempts = 6

abbrev pub max_backoff_secs : ℕ
max_backoff_secs = 64

abbrev pub u64_max : ℕ
u64_max = 18446744073709551615

-- `1_u64.checked_shl(attempt).unwrap_or(u64::MAX)`: a shift by 64 or more is refused.
unfoldable pub base_delay : ℕ → ℕ
base_delay attempt = if ltb attempt 64 then 2 ^ attempt else u64_max

unfoldable pub backoff_delay : ℕ → ℕ → ℕ
unfolding base_delay
backoff_delay attempt jitter_secs =
    min (min (base_delay attempt + jitter_secs) u64_max) max_backoff_secs
