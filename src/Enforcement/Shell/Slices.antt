-- ===== src/Enforcement/Shell/Slices.antt =====
-- enforcement/shell.rs: the commands that the parser returns, as parts of its input.
use cherub.Base.{
  ℕ, zero, suc, ◌+◌, ◌≡◌, ◌≢◌, Option, none, some, List, [], ◌∷◌, length, slice, is_empty, All,
  All-append, IsInfix, IsInfix-trans, slice-IsInfix, arith, Bool-cases, inl, inr, ◌⊎◌, ltb,
  >>=-eq-some, any, ◌==◌,
}
use cherub.Base.Bytes.{Str, trim, trim-IsInfix}
use cherub.Enforcement.Shell.{
  Quote, unquoted, single, double, Walk, push_trimmed, step, walk, advance, start_walk,
  collect_each, collect_commands, parse_commands, is_unquoted,
}

-- A command that may be returned for an input.
abbrev pub IsPart : Str → Str → Type 0
IsPart input command = IsInfix command input × (command ≢ [])

-- One round leaves `out` alone or pushes the command that ends at `i`.
step-out :
    (q : Quote) (input : Str) (i b : ℕ) (w : Walk) (next : ℕ) (w' : Walk)
    → step q input i b w ≡ some (next, w')
    → (w'.out ≡ w.out) ⊎ (w'.out ≡ push_trimmed input w.cmd_start i w.out)
unfolding step
step-out unquoted input i b w next w' e = ground arith
step-out single input i b w next w' e = ground arith
step-out double input i b w next w' e = ground arith

-- A predicate on commands that holds of every part of the input is kept by the loop.
module _ (P : Str → Type 0) (input : Str)
    (closed : (command : Str) → IsPart input command → P command) where
  All-push_trimmed :
      (start end : ℕ) (out : List Str) → All P out → All P (push_trimmed input start end out)
  unfolding push_trimmed
  All-push_trimmed start end out h =
      let trimmed = trim (slice input start end) in
      let part =
        IsInfix-trans trimmed (trim-IsInfix (slice input start end))
          (slice-IsInfix input start end) in
      elim (Bool-cases (is_empty trimmed)) [
        | inl e ↦ rw e h
        | inr e ↦
            let nonempty : trimmed ≢ [] = λ q. ground arith in
            rw e (All-append P out (trimmed ∷ []) h (closed trimmed (part, nonempty), tt))
      ]

  All-advance :
      (i next b : ℕ) (w : Walk) (r : ℕ × Walk)
      → advance input i next b w ≡ some r
      → All P w.out
      → All P r.1.out
  unfolding advance
  All-advance i next b w (next', w') e h = elim (Bool-cases (ltb i next)) [
    | inl passed ↦ let same : w.out ≡ w'.out = ground arith in rw (← same) h
    | inr at ↦ elim (step-out w.quote input i b w next' w' (rw at at e)) [
      | inl same ↦ rw same h
      | inr pushed ↦ rw pushed (All-push_trimmed w.cmd_start i w.out h)
    ]
  ]

  All-walk :
      (rest : Str) (i next : ℕ) (w w' : Walk)
      → walk input rest i next w ≡ some w'
      → All P w.out
      → All P w'.out
  unfolding walk
  All-walk [] i next w w' e h = let same : w.out ≡ w'.out = ground arith in rw (← same) h
  All-walk (b ∷ rest) i next w w' e h =
      let (r, here, later) = >>=-eq-some (advance input i next b w) _ e in
      All-walk rest (i + 1) r.0 r.1 w' later (All-advance i next b w r here h)

  All-collect_each :
      (collect : Str → List Str → Option (List Str))
      → ((s : Str) (out out' : List Str)
          → IsInfix s input
          → collect s out ≡ some out'
          → All P out
          → All P out')
      → (subs : List (ℕ × ℕ)) (out out' : List Str)
      → collect_each collect input subs out ≡ some out'
      → All P out
      → All P out'
  unfolding collect_each
  All-collect_each collect keeps [] out out' e h = let same : out ≡ out' = cc in rw (← same) h
  All-collect_each collect keeps ((start, end) ∷ rest) out out' e h =
      let (mid, here, later) = >>=-eq-some (collect (slice input start end) out) _ e in
      All-collect_each collect keeps rest mid out' later
        (keeps (slice input start end) out mid (slice-IsInfix input start end) here h)

-- With any fuel, what a call returns satisfies a predicate that holds of the parts of its input.
All-collect_commands :
    (P : Str → Type 0) (fuel : ℕ) (input : Str) (out out' : List Str)
    → ((command : Str) → IsPart input command → P command)
    → collect_commands fuel input out ≡ some out'
    → All P out
    → All P out'
unfolding collect_commands
All-collect_commands P zero input out out' closed e h = cc
All-collect_commands P (suc fuel) input out out' closed e h =
    let (w, walked, finished) = >>=-eq-some (walk input input 0 0 (start_walk out)) _ e in
    let parts = All-walk P input closed input 0 0 (start_walk out) w walked h in
    elim (Bool-cases (is_unquoted w.quote)) [
      | inl balanced ↦
          All-collect_each P input closed (collect_commands fuel)
            (λ s o o' inside.
              All-collect_commands P fuel s o o'
                (λ command part. closed command (IsInfix-trans command part.0 inside, part.1)))
            w.substitutions (push_trimmed input w.cmd_start (length input) w.out) out'
            (rw balanced at finished)
            (All-push_trimmed P input closed w.cmd_start (length input) w.out parts)
      | inr broken ↦ cc (let e' : none ≡ some out' = rw broken at finished in e')
    ]

-- Every command that the parser returns is a contiguous part of the input and is not empty.
pub parse_commands-IsPart :
    (input : Str) (commands : List Str)
    → parse_commands input ≡ some commands
    → All (IsPart input) commands
unfolding parse_commands
parse_commands-IsPart input commands e = elim (Bool-cases (any (λ b. b == 0) input)) [
  | inl zeros ↦ cc (let e' : none ≡ some commands = rw zeros at e in e')
  | inr clean ↦
      All-collect_commands (IsPart input) (length input + 1) input [] commands
        (λ command part. part) (rw clean at e) tt
]
