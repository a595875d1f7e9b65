-- ===== src/Enforcement/Shell/Fuel.antt =====
-- enforcement/shell.rs: the fuel of the recursion into substitutions.
use cherub.Base.{
  ℕ, zero, suc, ◌+◌, ◌-◌, ◌≤◌, ◌<◌, ◌≡◌, refl, ap, Bool, true, Option, none, some, List, [], ◌∷◌,
  ◌++◌, length, length-take, length-drop, drop, slice, arith, Option-cases, inl, inr, leb, all,
  ◌&&◌, if◌then◌else◌, &&_eq_true, leb→le, >>=-eq-some, ◌>>=◌,
}
use mathlib.Core.Path.{fun_ext}
use cherub.Base.Bytes.{Str}
use cherub.Enforcement.Shell.{
  Quote, unquoted, single, double, Walk, push_trimmed, push_substitution, step, walk, advance,
  start_walk, collect_each, collect_body, collect_commands, is_unquoted,
}

-- No substitution starts at the first byte.
abbrev inside : List (ℕ × ℕ) → Bool
inside subs = all (λ s. leb 1 s.0) subs

inside-append :
    (subs : List (ℕ × ℕ)) (s : ℕ × ℕ) → inside (subs ++ s ∷ []) ≡ inside subs && leb 1 s.0
inside-append [] s = ground arith
inside-append (t ∷ subs) s = ground (arith, inside-append subs s)

push_substitution-inside :
    (start : ℕ) (close : Option ℕ) (w : Walk) (next : ℕ) (w' : Walk)
    → 1 ≤ start
    → inside w.substitutions ≡ true
    → push_substitution start close w ≡ some (next, w')
    → inside w'.substitutions ≡ true
unfolding push_substitution
push_substitution-inside start none w next w' pos h e = cc
push_substitution-inside start (some close) w next w' pos h e =
    ground (arith, inside-append w.substitutions (start, close))

step-inside :
    (q : Quote) (input : Str) (i b : ℕ) (w : Walk) (next : ℕ) (w' : Walk)
    → inside w.substitutions ≡ true
    → step q input i b w ≡ some (next, w')
    → inside w'.substitutions ≡ true
unfolding step
step-inside unquoted input i b w next w' h e = ground (
  arith,
  inside-append w.substitutions (i + 2, next - 1),
  inside-append w.substitutions (i + 1, next - 1),
)
step-inside single input i b w next w' h e = ground arith
step-inside double input i b w next w' h e = ground (
  arith,
  inside-append w.substitutions (i + 2, next - 1),
  inside-append w.substitutions (i + 1, next - 1),
)

walk-inside :
    (input rest : Str) (i next : ℕ) (w w' : Walk)
    → walk input rest i next w ≡ some w'
    → inside w.substitutions ≡ true
    → inside w'.substitutions ≡ true
unfolding walk advance
walk-inside input [] i next w w' e h = ground arith
walk-inside input (b ∷ rest) i next w w' e h =
    let (r, here, later) = >>=-eq-some (advance input i next b w) _ e in
    let kept : inside r.1.substitutions ≡ true =
      ground (arith, step-inside w.quote input i b w r.0 r.1) in
    walk-inside input rest (i + 1) r.0 r.1 w' later kept

length-slice : (input : Str) (start end : ℕ) → length (slice input start end) ≤ length input - start
length-slice input start end =
    omega (arith, length-take (end - start) (drop start input), length-drop start input)

-- Two calls that agree on shorter texts agree on the substitutions of a text.
collect_each_congr :
    (f g : Str → List Str → Option (List Str)) (n : ℕ)
    → ((s : Str) (out : List Str) → length s ≤ n → f s out ≡ g s out)
    → (input : Str) (subs : List (ℕ × ℕ)) (out : List Str) → length input ≤ suc n
    → inside subs ≡ true
    → collect_each f input subs out ≡ collect_each g input subs out
unfolding collect_each
collect_each_congr f g n agree input [] out short h = refl
collect_each_congr f g n agree input ((start, end) ∷ subs) out short h =
    let (first, others) = &&_eq_true (leb 1 start) (inside subs) h in
    let shorter : length (slice input start end) ≤ n =
      omega (arith, length-slice input start end, leb→le 1 start first) in
    rw (agree (slice input start end) out shorter) (
      ap (λ k. g (slice input start end) out >>= k)
        (fun_ext λ out'. collect_each_congr f g n agree input subs out' short others))

collect_body_congr :
    (f g : Str → List Str → Option (List Str)) (b : ℕ) (rest : Str)
    → ((s : Str) (out : List Str) → length s ≤ length rest → f s out ≡ g s out)
    → (out : List Str) → collect_body f (b ∷ rest) out ≡ collect_body g (b ∷ rest) out
unfolding collect_body
collect_body_congr f g b rest agree out =
    elim (Option-cases (walk (b ∷ rest) (b ∷ rest) 0 0 (start_walk out))) [
      | inl e ↦ rw e
      | inr (w, e) ↦
          let input = b ∷ rest in
          let subs = walk-inside input input 0 0 (start_walk out) w e refl in
          rw e (
            ap (λ r. if is_unquoted w.quote then r else none)
              (collect_each_congr f g (length rest) agree input w.substitutions
                (push_trimmed input w.cmd_start (length input) w.out) (omega arith) subs))
    ]

-- Any two fuels above the length of the text give the same result.
pub collect_commands_fuel :
    (f g : ℕ) (input : Str) (out : List Str)
    → length input < f
    → length input < g
    → collect_commands f input out ≡ collect_commands g input out
unfolding collect_commands
collect_commands_fuel zero g input out hf hg = absurd (omega arith)
collect_commands_fuel (suc f) zero input out hf hg = absurd (omega arith)
collect_commands_fuel (suc f) (suc g) [] out hf hg = unfold walk collect_each in refl
collect_commands_fuel (suc f) (suc g) (b ∷ rest) out hf hg =
    collect_body_congr (collect_commands f) (collect_commands g) b rest
      (λ s out' short. collect_commands_fuel f g s out' (omega arith) (omega arith)) out
