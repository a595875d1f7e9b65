-- ===== src/Providers/Failover/Breaker.antt =====
-- providers/failover.rs: the circuit breaker of one provider, over sequences of failures.
use cherub.Base.{
  ℕ, zero, suc, ◌-◌, ◌^◌, ◌<◌, ◌≡◌, refl, false, none, arith, if◌then◌else◌, ltb, leb,
}
use cherub.Providers.Failover.{CircuitState, new_circuit, is_open, record_failure}

-- `n` failures in a row, at times that are given.
unfoldable pub fail_times : ℕ → (ℕ → ℕ) → ℕ → CircuitState
fail_times threshold clock zero = new_circuit
fail_times threshold clock (suc n) =
    record_failure (fail_times threshold clock n) threshold (clock n)

fail_times-count :
    (threshold : ℕ) (clock : ℕ → ℕ) (n : ℕ)
    → n < 2 ^ 32
    → (fail_times threshold clock n).consecutive_failures ≡ n
unfolding fail_times new_circuit record_failure
fail_times-count threshold clock zero h = refl
fail_times-count threshold clock (suc n) h = ground (arith, fail_times-count threshold clock n)

fail_times-closed :
    (threshold : ℕ) (clock : ℕ → ℕ) (n : ℕ)
    → n < 2 ^ 32
    → n < threshold
    → (fail_times threshold clock n).opened_at ≡ none
unfolding fail_times new_circuit record_failure
fail_times-closed threshold clock zero h k = refl
fail_times-closed threshold clock (suc n) h k =
    ground (arith, fail_times-count threshold clock n, fail_times-closed threshold clock n)

-- For a threshold that is not 0 and fewer than 2^32 failures: from a new circuit, fewer failures in
-- a row than the threshold leave it closed at every time.
-- From the threshold on, each failure opens it: it stays open until the cooldown after the last
-- failure has passed, and no longer.
pub fail_times-opens :
    (threshold cooldown : ℕ) (clock : ℕ → ℕ) (n now : ℕ)
    → 0 < threshold
    → suc n < 2 ^ 32
    → is_open (fail_times threshold clock (suc n)) cooldown now
      ≡ (if leb threshold (suc n) then ltb (now - clock n) cooldown else false)
unfolding is_open fail_times new_circuit record_failure
fail_times-opens threshold cooldown clock n now p h =
    ground (arith, fail_times-count threshold clock n, fail_times-closed threshold clock n)
