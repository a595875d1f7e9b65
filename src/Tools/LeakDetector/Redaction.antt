-- ===== src/Tools/LeakDetector/Redaction.antt =====
-- tools/leak_detector.rs: what a redaction leaves in a text.
use cherub.Base.{
  ℕ, zero, suc, ◌-◌, ◌≡◌, ◌≢◌, refl, sym, ap, ◌∙◌, ◌⊎◌, inl, inr, Bool, true, false, not, ◌&&◌,
  List, [], ◌∷◌, ◌++◌, is_empty, length, all, arith, All, ◌==◌, Bool-cases, append_assoc,
}
use cherub.Base.Bytes.{Str, lit, starts_with, contains}
use cherub.Tools.LeakDetector.{
  Secret, replace_from, replacement, redact_one, redact, contains_secret,
}

-- A text without brackets.
abbrev pub is_bare : Str → Bool
is_bare s = all (λ b. not (b == b'[') && not (b == b']')) s

-- A bare text at the start of what ends at a bracket lies before the bracket.
starts_with-bracket :
    (w a rest : Str)
    → is_bare w ≡ true
    → starts_with w (a ++ b']' ∷ rest) ≡ true
    → starts_with w a ≡ true
starts_with-bracket [] a rest bare h = refl
starts_with-bracket (x ∷ w) [] rest bare h = ground arith
starts_with-bracket (x ∷ w) (y ∷ a) rest bare h = ground (arith, starts_with-bracket w a rest)

starts_with-append : (w a rest : Str) → starts_with w a ≡ true → starts_with w (a ++ rest) ≡ true
starts_with-append [] a rest h = refl
starts_with-append (x ∷ w) [] rest h = cc
starts_with-append (x ∷ w) (y ∷ a) rest h = ground (arith, starts_with-append w a rest)

-- What a bare text does not stand in before a bracket nor after it, it does not stand in.
contains-bracket :
    (x : ℕ) (w a rest : Str)
    → is_bare (x ∷ w) ≡ true
    → contains (x ∷ w) a ≡ false
    → contains (x ∷ w) rest ≡ false
    → contains (x ∷ w) (a ++ b']' ∷ rest) ≡ false
contains-bracket x w [] rest bare ha hr = ground arith
contains-bracket x w (y ∷ a) rest bare ha hr =
    ground (arith, contains-bracket x w a rest, starts_with-bracket (x ∷ w) (y ∷ a) rest)

contains-prefix :
    (x : ℕ) (w a rest : Str) → contains (x ∷ w) (a ++ rest) ≡ false → contains (x ∷ w) a ≡ false
contains-prefix x w [] rest h = refl
contains-prefix x w (y ∷ a) rest h =
    ground (arith, contains-prefix x w a rest, starts_with-append (x ∷ w) (y ∷ a) rest)

module _ (from body : Str) where
  -- The replacement, up to its end.
  abbrev to : Str
  to = b'[' ∷ (body ++ b']' ∷ [])

  replace_from-hit :
      (x : ℕ) (s : Str)
      → starts_with from (x ∷ s) ≡ true
      → replace_from from to 0 (x ∷ s)
        ≡ b'[' ∷ (body ++ b']' ∷ replace_from from to (length from - 1) s)
  unfolding replace_from
  replace_from-hit x s h =
      rw (h, replace_from)
        (append_assoc (b'[' ∷ body) (b']' ∷ []) (replace_from from to (length from - 1) s))

  replace_from-miss :
      (x : ℕ) (s : Str)
      → starts_with from (x ∷ s) ≡ false
      → replace_from from to 0 (x ∷ s) ≡ x ∷ replace_from from to 0 s
  unfolding replace_from
  replace_from-miss x s h = rw (h, replace_from) refl

  -- A bare text at the start of the result stands at the start of what was replaced in.
  starts_with-replace_from :
      (w s : Str)
      → is_bare w ≡ true
      → starts_with w (replace_from from to 0 s) ≡ true
      → starts_with w s ≡ true
  unfolding replace_from
  starts_with-replace_from [] s bare h = refl
  starts_with-replace_from (y ∷ w) [] bare h = h
  starts_with-replace_from (y ∷ w) (x ∷ s) bare h = elim (Bool-cases (starts_with from (x ∷ s))) [
    | inl hit ↦ let bracket = rw (replace_from-hit x s hit) at h in ground (arith, bracket)
    | inr miss ↦
        let same = rw (replace_from-miss x s miss) at h in
        ground (arith, same, starts_with-replace_from w s)
  ]

  first_clear :
      (y : ℕ) (w : Str) (x : ℕ) (s : Str)
      → ((y ∷ w ≡ from) ⊎ (contains (y ∷ w) (x ∷ s) ≡ false))
      → starts_with from (x ∷ s) ≡ false
      → starts_with (y ∷ w) (x ∷ s) ≡ false
  first_clear y w x s (inl same) miss = ap (λ v. starts_with v (x ∷ s)) same ∙ miss
  first_clear y w x s (inr clear) miss = ground arith

  contains-replace_from :
      (y : ℕ) (w : Str) (skip : ℕ) (s : Str)
      → is_bare (y ∷ w) ≡ true
      → contains (y ∷ w) (b'[' ∷ body) ≡ false
      → ((y ∷ w ≡ from) ⊎ (contains (y ∷ w) s ≡ false))
      → contains (y ∷ w) (replace_from from to skip s) ≡ false
  unfolding replace_from
  contains-replace_from y w skip [] bare clear h = refl
  contains-replace_from y w (suc skip) (x ∷ s) bare clear h =
      contains-replace_from y w skip s bare clear (ground arith)
  contains-replace_from y w zero (x ∷ s) bare clear h =
      let tail : (y ∷ w ≡ from) ⊎ (contains (y ∷ w) s ≡ false) = ground arith in
      elim (Bool-cases (starts_with from (x ∷ s))) [
        | inl hit ↦ rw (replace_from-hit x s hit) (
            contains-bracket y w (b'[' ∷ body) (replace_from from to (length from - 1) s) bare clear
              (contains-replace_from y w (length from - 1) s bare clear tail))
        | inr miss ↦
            let rest = contains-replace_from y w 0 s bare clear tail in
            let first : starts_with (y ∷ w) (x ∷ s) ≡ false = first_clear y w x s h miss in
            rw (replace_from-miss x s miss)
              (ground (arith, rest, first, starts_with-replace_from w s))
      ]

-- What makes a set of secrets safe to redact: the values are not empty and have no brackets, and
-- none stands in the text that replaces a secret.
abbrev pub IsSafe : List Secret → List Secret → Type 0
IsSafe others secrets =
    All
      (λ secret.
        (secret.value ≢ [])
        × (is_bare secret.value ≡ true)
        × All (λ other. contains secret.value (replacement other.name) ≡ false) others)
      secrets

redact_one-clear :
    (secret : Secret) (y : ℕ) (w result : Str)
    → is_bare (y ∷ w) ≡ true
    → contains (y ∷ w) (replacement secret.name) ≡ false
    → ((y ∷ w ≡ secret.value) ⊎ (contains (y ∷ w) result ≡ false))
    → contains (y ∷ w) (redact_one secret result) ≡ false
unfolding redact_one
redact_one-clear secret y w result bare clear (inr h) =
    let body : Str = lit "REDACTED:" ++ secret.name in
    let replaced =
      contains-replace_from secret.value body y w 0 result bare
        (contains-prefix y w (b'[' ∷ body) (b']' ∷ []) clear) (inr h) in
    ground (arith, replaced, h)
redact_one-clear secret y w result bare clear (inl same) =
    let body : Str = lit "REDACTED:" ++ secret.name in
    let replaced =
      contains-replace_from secret.value body y w 0 result bare
        (contains-prefix y w (b'[' ∷ body) (b']' ∷ []) clear) (inl same) in
    let empty : is_empty secret.value ≡ false = ap is_empty (sym same) in
    elim (Bool-cases (contains secret.value result)) [
      | inl found ↦ rw empty (rw found replaced)
      | inr absent ↦ rw empty (rw absent (ap (λ v. contains v result) same ∙ absent))
    ]

redact-keeps :
    (secrets : List Secret) (y : ℕ) (w text : Str)
    → is_bare (y ∷ w) ≡ true
    → All (λ other. contains (y ∷ w) (replacement other.name) ≡ false) secrets
    → contains (y ∷ w) text ≡ false
    → contains (y ∷ w) (redact secrets text) ≡ false
unfolding redact
redact-keeps [] y w text bare clear h = h
redact-keeps (secret ∷ secrets) y w text bare clear h =
    redact-keeps secrets y w (redact_one secret text) bare clear.1
      (redact_one-clear secret y w text bare clear.0 (inr h))

redact-clears :
    (value : Str) (secret : Secret) (secrets : List Secret) (text : Str)
    → value ≡ secret.value
    → value ≢ []
    → is_bare value ≡ true
    → All (λ other. contains value (replacement other.name) ≡ false) (secret ∷ secrets)
    → contains value (redact (secret ∷ secrets) text) ≡ false
unfolding redact
redact-clears [] secret secrets text same full bare clear = absurd (full refl)
redact-clears (y ∷ w) secret secrets text same full bare clear =
    redact-keeps secrets y w (redact_one secret text) bare clear.1
      (redact_one-clear secret y w text bare clear.0 (inl same))

IsSafe-tail :
    (secret : Secret) (others secrets : List Secret)
    → IsSafe (secret ∷ others) secrets
    → IsSafe others secrets
IsSafe-tail secret others [] h = tt
IsSafe-tail secret others (first ∷ secrets) ((full, bare, clear), h) =
    ((full, bare, clear.1), IsSafe-tail secret others secrets h)

-- For secrets with values that are not empty, have no brackets and do not stand in a replacement
-- text: once they are redacted, none of the values is left anywhere in the text, neither in what
-- remains of it nor across a replacement.
pub redact-no_secret :
    (secrets : List Secret) (text : Str)
    → IsSafe secrets secrets
    → contains_secret secrets (redact secrets text) ≡ false
unfolding contains_secret redact
redact-no_secret [] text safe = refl
redact-no_secret (secret ∷ secrets) text ((full, bare, clear), safe) =
    let first = redact-clears secret.value secret secrets text refl full bare clear in
    let later =
      redact-no_secret secrets (redact_one secret text) (IsSafe-tail secret secrets secrets safe) in
    rw first later
