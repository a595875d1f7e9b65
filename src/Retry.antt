-- ===== src/Retry.antt =====
-- src/retry.rs: which responses are retried, and after which delay. Durations are nanoseconds.
pub mod Bounds
use cherub.Base.{
  ℕ, ◌+◌, ◌*◌, ◌%◌, ◌^◌, ◌-◌, min, Option, none, some, Bool, true, false, ◌&&◌, if◌then◌else◌, leb,
  ◌==◌, ◌>>=◌,
}

-- `Duration::MAX`, `from_secs` and `from_millis`.
abbrev pub duration_max : ℕ
duration_max = 2 ^ 64 * 1000000000 - 1

abbrev pub from_secs : ℕ → ℕ
from_secs n = n * 1000000000

abbrev pub from_millis : ℕ → ℕ
from_millis n = n * 1000000

-- `Duration + Duration`, which panics on overflow.
abbrev pub add : ℕ → ℕ → Option ℕ
add a b = if leb (a + b) duration_max then some (a + b) else none

pub record RetryConfig : Type 0 where
  pub max_retries : ℕ
  pub base_delay : ℕ
  pub max_delay : ℕ

-- `RetryConfig::new`.
unfoldable pub new : RetryConfig
new = record { max_retries = 3; base_delay = from_secs 1; max_delay = from_secs 30 }

pub data RetryVerdict : Type 0 where
  success : RetryVerdict
  transient : Option ℕ → RetryVerdict
  permanent : RetryVerdict

unfoldable pub classify_status : ℕ → RetryVerdict
classify_status status =
    if leb 200 status && leb status 299
    then success
    else if status == 429
    then transient none
    else if leb 500 status && leb status 599
    then transient none
    else permanent

-- `base_delay.saturating_mul(1u32.wrapping_shl(attempt)).min(max_delay)`: the shift is by the
-- attempt modulo 32.
unfoldable pub backoff : RetryConfig → ℕ → ℕ
backoff config attempt =
    min (min (config.base_delay * 2 ^ (attempt % 32)) duration_max) config.max_delay

-- `compute_delay`, for the nanoseconds that the clock shows; none is a panic.
unfoldable pub compute_delay : RetryConfig → ℕ → ℕ → Option ℕ
unfolding backoff
compute_delay config attempt subsec_nanos =
    add (backoff config attempt) (from_millis (subsec_nanos % 1000)) >>= λ with_jitter.
    add config.max_delay (from_millis 999) >>= λ limit. some (min with_jitter limit)
