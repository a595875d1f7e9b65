-- ===== src/Providers/Failover.antt =====
-- providers/failover.rs: providers tried in order, each behind a circuit breaker. Time is in
-- milliseconds; the moments at which the clock is read are given with each provider's answer.
pub mod Order
pub mod Breaker
use cherub.Base.{
  ℕ, zero, suc, ◌+◌, ◌-◌, ◌%◌, ◌^◌, Bool, true, false, Option, none, some, List, [], ◌∷◌,
  if◌then◌else◌, ltb, leb,
}
use cherub.Base.Bytes.{Str, lit}
use cherub.Base.Result.{Result, ok, err}
use cherub.Providers.{CherubError, provider, not_permitted}

-- `failure_threshold: 3`, `cooldown: 60 s`.
abbrev pub default_failure_threshold : ℕ
default_failure_threshold = 3

abbrev pub default_cooldown : ℕ
default_cooldown = 60000

pub record CircuitState : Type 0 where
  pub consecutive_failures : ℕ
  pub opened_at : Option ℕ

unfoldable pub new_circuit : CircuitState
new_circuit = record { consecutive_failures = 0; opened_at = none }

-- `CircuitState::is_open` at the time `now`.
unfoldable pub is_open : CircuitState → ℕ → ℕ → Bool
is_open circuit cooldown now = elim circuit.opened_at [
  | none ↦ false
  | some opened ↦ ltb (now - opened) cooldown
]

-- `CircuitState::record_failure`; the count is a u32.
unfoldable pub record_failure : CircuitState → ℕ → ℕ → CircuitState
record_failure circuit threshold now =
    let failures = (circuit.consecutive_failures + 1) % 2 ^ 32 in
    if leb threshold failures
    then record { consecutive_failures = failures; opened_at = some now }
    else record circuit { consecutive_failures = failures }

-- `CircuitState::record_success`.
unfoldable pub record_success : CircuitState → CircuitState
record_success circuit = record { consecutive_failures = 0; opened_at = none }

-- A provider: its circuit, what it would answer, and the clock when its circuit is checked and when
-- a failure is recorded.
pub record Attempt (A : Type 0) : Type 0 where
  pub circuit : CircuitState
  pub checked_at : ℕ
  pub answer : Result CherubError A
  pub failed_at : ℕ

-- What a call leaves: the answer, the circuits, and `last_success_idx`.
pub record Outcome (A : Type 0) : Type 0 where
  pub result : Result CherubError A
  pub circuits : List CircuitState
  pub last_success_idx : ℕ

-- `last_error.unwrap_or_else(...)`.
abbrev pub all_failed : Option CherubError → CherubError
all_failed none = provider (lit "all providers circuit-broken")
all_failed (some e) = e

module _ {A : Type 0} where
  abbrev pub circuits_of : List (Attempt A) → List CircuitState
  circuits_of [] = []
  circuits_of (a ∷ attempts) = a.circuit ∷ circuits_of attempts

  -- The circuit of a provider that the loop has passed.
  abbrev pub cons_circuit : CircuitState → Outcome A → Outcome A
  cons_circuit circuit o = record o { circuits = circuit ∷ o.circuits }

  -- One provider that is asked, with what the rest of the loop gives.
  abbrev pub after_answer :
      ℕ
      → ℕ
      → Attempt A
      → List CircuitState
      → ℕ
      → Result CherubError A
      → (Option CherubError → Outcome A)
      → Outcome A
  after_answer threshold idx a others last (ok result) later = record {
    result = ok result;
    circuits = record_success a.circuit ∷ others;
    last_success_idx = idx;
  }
  after_answer threshold idx a others last (err (provider msg)) later =
      cons_circuit (record_failure a.circuit threshold a.failed_at) (later (some (provider msg)))
  after_answer threshold idx a others last (err e) later = record {
    result = err e;
    circuits = a.circuit ∷ others;
    last_success_idx = last;
  }

  -- The loop of `complete`, from the provider `idx` on.
  unfoldable pub complete_from : ℕ → ℕ → ℕ → ℕ → Option CherubError → List (Attempt A) → Outcome A
  complete_from threshold cooldown last idx last_error [] = record {
    result = err (all_failed last_error);
    circuits = [];
    last_success_idx = last;
  }
  complete_from threshold cooldown last idx last_error (a ∷ attempts) =
      let skipped =
        cons_circuit a.circuit
          (complete_from threshold cooldown last (idx + 1) last_error attempts) in
      let asked =
        after_answer threshold idx a (circuits_of attempts) last a.answer
          (λ e. complete_from threshold cooldown last (idx + 1) e attempts) in
      if is_open a.circuit cooldown a.checked_at then skipped else asked

  -- `FailoverProvider::complete`.
  unfoldable pub complete : ℕ → ℕ → ℕ → List (Attempt A) → Outcome A
  unfolding complete_from
  complete threshold cooldown last attempts = complete_from threshold cooldown last 0 none attempts
