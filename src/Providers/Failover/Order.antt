-- ===== src/Providers/Failover/Order.antt =====
-- providers/failover.rs: which provider answers a call, and what the call leaves behind.
use cherub.Base.{
  ℕ, ◌+◌, ◌-◌, ◌%◌, ◌^◌, ◌≡◌, inl, inr, Bool, Bool-cases, Option-cases, ltb, leb, refl, ap, ◌∙◌,
  true, false, Option, none, some, List, [], ◌∷◌, ◌++◌, if◌then◌else◌, length, arith, All,
}
use cherub.Base.Bytes.{Str}
use cherub.Base.Result.{ok, err}
use cherub.Providers.{CherubError, provider}
use cherub.Providers.Failover.{
  CircuitState, is_open, record_failure, record_success, Attempt, circuits_of, all_failed,
  cons_circuit, complete_from,
}

-- The circuit of a provider that has answered: no failures, and closed.
abbrev pub reset_circuit : CircuitState
reset_circuit = record { consecutive_failures = 0; opened_at = none }

-- The circuit of a provider that has failed once more: the failure is counted, and from the
-- threshold on it is open from the time of the failure.
abbrev pub failed_circuit : {A : Type 0} → ℕ → Attempt A → CircuitState
failed_circuit threshold a =
    let failures = (a.circuit.consecutive_failures + 1) % 2 ^ 32 in
    record {
      consecutive_failures = failures;
      opened_at = (if leb threshold failures then some a.failed_at else a.circuit.opened_at);
    }

record_failure-failed_circuit :
    {A : Type 0} (threshold : ℕ) (a : Attempt A)
    → record_failure a.circuit threshold a.failed_at ≡ failed_circuit threshold a
unfolding record_failure
record_failure-failed_circuit threshold a =
    elim (Bool-cases (leb threshold ((a.circuit.consecutive_failures + 1) % 2 ^ 32))) [
      | inl opens ↦ rw opens refl
      | inr below ↦ rw below refl
    ]

-- The cooldown since the circuit was opened has not passed at the time.
abbrev pub is_cooling : ℕ → Option ℕ → ℕ → Bool
is_cooling cooldown none now = false
is_cooling cooldown (some opened) now = ltb (now - opened) cooldown

is_open-is_cooling :
    (circuit : CircuitState) (cooldown now : ℕ)
    → is_open circuit cooldown now ≡ is_cooling cooldown circuit.opened_at now
unfolding is_open
is_open-is_cooling circuit cooldown now = elim (Option-cases circuit.opened_at) [
  | inl e ↦ rw e refl
  | inr (opened, e) ↦ rw e refl
]

module _ {A : Type 0} (threshold cooldown : ℕ) where
  -- A provider that is not asked.
  abbrev pub is_blocked : Attempt A → Bool
  is_blocked a = is_cooling cooldown a.circuit.opened_at a.checked_at

  -- A provider is passed over if its circuit is open, or if it is asked and fails as a provider.
  pub data IsPassed (a : Attempt A) : Type 0 where
    skipped : is_blocked a ≡ true → IsPassed a
    failed : (msg : Str) → is_blocked a ≡ false → a.answer ≡ err (provider msg) → IsPassed a

  -- The circuit of a provider that was passed over.
  abbrev pub passed_circuit : Attempt A → CircuitState
  passed_circuit a = if is_blocked a then a.circuit else failed_circuit threshold a

  abbrev pub passed_circuits : List (Attempt A) → List CircuitState
  passed_circuits [] = []
  passed_circuits (a ∷ attempts) = passed_circuit a ∷ passed_circuits attempts

  complete_from-skip :
      (last idx : ℕ) (e : Option CherubError) (a : Attempt A) (attempts : List (Attempt A))
      → IsPassed a
      → (e' : Option CherubError) × (complete_from threshold cooldown last idx e (a ∷ attempts)
          ≡ cons_circuit
              (passed_circuit a)
              (complete_from threshold cooldown last (idx + 1) e' attempts))
  unfolding complete_from
  complete_from-skip last idx e a attempts (skipped opened) =
      (e, rw (is_open-is_cooling a.circuit cooldown a.checked_at, opened))
  complete_from-skip last idx e a attempts (failed msg closed answer) = (
    some (provider msg),
    rw (
      is_open-is_cooling a.circuit cooldown a.checked_at,
      closed,
      answer,
      record_failure-failed_circuit threshold a,
    ),
  )

  complete_from-asked :
      (last idx : ℕ) (e : Option CherubError) (a : Attempt A) (after : List (Attempt A))
      (answer : A)
      → is_blocked a ≡ false
      → a.answer ≡ ok answer
      → complete_from threshold cooldown last idx e (a ∷ after) ≡ record {
        result = ok answer;
        circuits = reset_circuit ∷ circuits_of after;
        last_success_idx = idx;
      }
  unfolding complete_from record_success
  complete_from-asked last idx e a after answer closed ans =
      rw (is_open-is_cooling a.circuit cooldown a.checked_at, closed, ans)

  -- A call that meets a provider that answers, after those that are passed over, returns its answer,
  -- resets its circuit and remembers its index; the circuits of those after it stay as they were.
  pub complete_from-ok :
      (last idx j : ℕ) (e : Option CherubError) (before : List (Attempt A)) (a : Attempt A)
      (after : List (Attempt A)) (answer : A)
      → j ≡ idx + length before
      → All IsPassed before
      → is_blocked a ≡ false
      → a.answer ≡ ok answer
      → complete_from threshold cooldown last idx e (before ++ (a ∷ after)) ≡ record {
        result = ok answer;
        circuits = passed_circuits before ++ (reset_circuit ∷ circuits_of after);
        last_success_idx = j;
      }
  complete_from-ok last idx j e [] a after answer ej p closed ans =
      let same : j ≡ idx = omega arith in
      rw same (complete_from-asked last idx e a after answer closed ans)
  complete_from-ok last idx j e (b ∷ before) a after answer ej p closed ans =
      let (e', skip) = complete_from-skip last idx e b (before ++ (a ∷ after)) p.0 in
      skip
      ∙ ap (cons_circuit (passed_circuit b))
          (complete_from-ok last (idx + 1) j e' before a after answer (omega arith) p.1 closed ans)

  -- If every provider is passed over, the loop returns an error, with the failures recorded in the
  -- circuits and the remembered index as it was.
  pub complete_from-exhausted :
      (last idx : ℕ) (e : Option CherubError) (attempts : List (Attempt A))
      → All IsPassed attempts
      → (e' : Option CherubError) × (complete_from threshold cooldown last idx e attempts ≡ record {
        result = err (all_failed e');
        circuits = passed_circuits attempts;
        last_success_idx = last;
      })
  complete_from-exhausted last idx e [] p = (e, unfold complete_from in refl)
  complete_from-exhausted last idx e (a ∷ attempts) p =
      let (e1, skip) = complete_from-skip last idx e a attempts p.0 in
      let (e2, rest) = complete_from-exhausted last (idx + 1) e1 attempts p.1 in
      (e2, skip ∙ ap (cons_circuit (passed_circuit a)) rest)
