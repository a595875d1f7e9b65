-- ===== src/Enforcement/Shell/Plain.antt =====
-- enforcement/shell.rs on commands without quotes, escapes or substitutions.
use native.Mathlib.Numerals.{add-one}
use cherub.Base.{
  ℕ, suc, ◌+◌, ◌≡◌, refl, sym, ap, ◌∙◌, Bool, true, false, not, Option, none, some, List, [], ◌∷◌,
  ◌++◌, length, length-append, slice_middle, arith, Bool-cases, inl, inr, all, any, ◌&&◌, ◌||◌,
  if◌then◌else◌, ◌>>=◌, ◌==◌, &&_eq_true, append-nil, append_assoc, is_empty, filter, map,
}
use cherub.Base.Bytes.{Str, trim}
use cherub.Enforcement.Shell.{
  unquoted, Walk, push_trimmed, step, walk, advance, collect_each, collect_commands, parse_commands,
  is_unquoted,
}

-- A byte that the parser gives no meaning.
abbrev pub is_plain : ℕ → Bool
is_plain b =
    not (b == 0)
    && (not (b == b'\\')
        && not (b == b'\'')
        && not (b == b'"')
        && not (b == b'$')
        && not (b == b'`')
        && not (b == b'<')
        && not (b == b';')
        && not (b == b'\n')
        && not (b == b'&')
        && not (b == b'|'))

-- The parts joined by semicolons.
abbrev pub join : Str → List Str → Str
join part [] = part
join part (next ∷ parts) = part ++ (b';' ∷ join next parts)

-- The commands that the parts stand for.
abbrev pub commands_of : List Str → List Str
commands_of parts = filter (λ s. not (is_empty s)) (map trim parts)

plain_walk : ℕ → List Str → Walk
plain_walk start out = record { quote = unquoted; cmd_start = start; out = out; substitutions = [] }

advance-plain :
    (input : Str) (i b start : ℕ) (out : List Str)
    → is_plain b ≡ true
    → advance input i i b (plain_walk start out) ≡ some (i + 1, plain_walk start out)
unfolding advance step plain_walk
advance-plain input i b start out h = ground arith

advance-semicolon :
    (input : Str) (i start : ℕ) (out : List Str)
    → advance input i i b';' (plain_walk start out)
      ≡ some (i + 1, plain_walk (i + 1) (push_trimmed input start i out))
unfolding advance step plain_walk
advance-semicolon input i start out = ground arith

walk-plain :
    (input part rest : Str) (i j start : ℕ) (out : List Str)
    → all is_plain part ≡ true
    → j ≡ i + length part
    → walk input (part ++ rest) i i (plain_walk start out)
      ≡ walk input rest j j (plain_walk start out)
unfolding walk
walk-plain input [] rest i j start out h e = let same : j ≡ i = omega arith in rw same refl
walk-plain input (b ∷ part) rest i j start out h e =
    let (plain, others) = &&_eq_true (is_plain b) (all is_plain part) h in
    rw (advance-plain input i b start out plain)
      (walk-plain input part rest (i + 1) j start out others (omega arith))

push_trimmed_middle :
    (pre part post : Str) (i j : ℕ) (out : List Str)
    → i ≡ length pre
    → j ≡ length pre + length part
    → push_trimmed (pre ++ (part ++ post)) i j out ≡ out ++ commands_of (part ∷ [])
unfolding push_trimmed
push_trimmed_middle pre part post i j out ei ej =
    rw (slice_middle pre part post i j ei ej) (elim (Bool-cases (is_empty (trim part))) [
      | inl e ↦ rw e (sym (append-nil out))
      | inr e ↦ rw e refl
    ])

-- What `collect_body` does with the variables after the loop.
finish : (Str → List Str → Option (List Str)) → Str → Walk → Option (List Str)
finish collect input w =
    let out' = push_trimmed input w.cmd_start (length input) w.out in
    if is_unquoted w.quote then collect_each collect input w.substitutions out' else none

finish_last :
    (collect : Str → List Str → Option (List Str)) (input pre part : Str) (i : ℕ) (out : List Str)
    → input ≡ pre ++ part
    → i ≡ length pre
    → finish collect input (plain_walk i out) ≡ some (out ++ commands_of (part ∷ []))
unfolding finish plain_walk collect_each
finish_last collect input pre part i out e ei =
    let whole : input ≡ pre ++ (part ++ []) = rw append-nil e in
    rw whole (
      ap some (
        push_trimmed_middle pre part [] i (length (pre ++ (part ++ []))) out ei
          (omega (arith, length-append pre (part ++ []), length-append part []))))

walk-semicolon :
    (input rest : Str) (i start : ℕ) (out : List Str)
    → walk input (b';' ∷ rest) i i (plain_walk start out)
      ≡ walk input rest (i + 1) (i + 1) (plain_walk (i + 1) (push_trimmed input start i out))
unfolding walk
walk-semicolon input rest i start out = rw (advance-semicolon input i start out)

walk-plain_last :
    (input part : Str) (i start : ℕ) (out : List Str)
    → all is_plain part ≡ true
    → walk input part i i (plain_walk start out) ≡ some (plain_walk start out)
walk-plain_last input part i start out h =
    let walked = walk-plain input part [] i (i + length part) start out h refl in
    rw append-nil at walked ∙ (unfold walk in refl)

commands_of-cons :
    (part : Str) (parts : List Str)
    → commands_of (part ∷ parts) ≡ commands_of (part ∷ []) ++ commands_of parts
commands_of-cons part parts = elim (Bool-cases (is_empty (trim part))) [
  | inl e ↦ rw e
  | inr e ↦ rw e
]

walk-join :
    (collect : Str → List Str → Option (List Str)) (parts : List Str) (input pre part : Str) (i : ℕ)
    (out : List Str)
    → input ≡ pre ++ join part parts
    → i ≡ length pre
    → all is_plain part ≡ true
    → all (all is_plain) parts ≡ true
    → (walk input (join part parts) i i (plain_walk i out) >>= finish collect input)
      ≡ some (out ++ commands_of (part ∷ parts))
walk-join collect [] input pre part i out e ei h hs =
    rw (walk-plain_last input part i i out h) (finish_last collect input pre part i out e ei)
walk-join collect (next ∷ parts) input pre part i out e ei h hs =
    let j = i + length part in
    let before = pre ++ (part ++ (b';' ∷ [])) in
    let pushed : push_trimmed input i j out ≡ out ++ commands_of (part ∷ []) =
      rw e (push_trimmed_middle pre part (b';' ∷ join next parts) i j out ei (omega arith)) in
    let (h', hs') = &&_eq_true (all is_plain next) (all (all is_plain) parts) hs in
    let rest =
      walk-join collect parts input before next (j + 1) (out ++ commands_of (part ∷ []))
        (e ∙ sym (simp append_assoc))
        (omega (arith, length-append pre (part ++ (b';' ∷ [])), length-append part (b';' ∷ []))) h'
        hs' in
    rw (walk-plain input part (b';' ∷ join next parts) i j i out h refl) (
      rw (walk-semicolon input (join next parts) j i out) (
        rw pushed (
          rest
          ∙ ap some (
              append_assoc out (commands_of (part ∷ [])) (commands_of (next ∷ parts))
              ∙ ap (λ l. out ++ l) (sym (commands_of-cons part (next ∷ parts)))))))

any_zero-append :
    (xs ys : Str) → any (λ b. b == 0) (xs ++ ys) ≡ (any (λ b. b == 0) xs || any (λ b. b == 0) ys)
any_zero-append [] ys = refl
any_zero-append (x ∷ xs) ys = ground (arith, any_zero-append xs ys)

not_eq_true : (b : Bool) → not b ≡ true → b ≡ false
not_eq_true true h = cc
not_eq_true false h = refl

plain-ne_zero : (b : ℕ) → is_plain b ≡ true → (b == 0) ≡ false
plain-ne_zero b h = not_eq_true (b == 0) (&&_eq_true (not (b == 0)) _ h).0

any_zero-plain : (part : Str) → all is_plain part ≡ true → any (λ b. b == 0) part ≡ false
any_zero-plain [] h = refl
any_zero-plain (b ∷ part) h =
    let (plain, others) = &&_eq_true (is_plain b) (all is_plain part) h in
    rw (plain-ne_zero b plain) (any_zero-plain part others)

any_zero-join :
    (part : Str) (parts : List Str)
    → all is_plain part ≡ true
    → all (all is_plain) parts ≡ true
    → any (λ b. b == 0) (join part parts) ≡ false
any_zero-join part [] h hs = any_zero-plain part h
any_zero-join part (next ∷ parts) h hs =
    let (h', hs') = &&_eq_true (all is_plain next) (all (all is_plain) parts) hs in
    rw (any_zero-append part (b';' ∷ join next parts), any_zero-plain part h)
      (any_zero-join next parts h' hs')

collect_commands-join :
    (fuel : ℕ) (part : Str) (parts : List Str)
    → all is_plain part ≡ true
    → all (all is_plain) parts ≡ true
    → collect_commands (suc fuel) (join part parts) [] ≡ some (commands_of (part ∷ parts))
unfolding collect_commands finish plain_walk
collect_commands-join fuel part parts h hs =
    walk-join (collect_commands fuel) parts (join part parts) [] part 0 [] refl refl h hs

-- Plain commands, without quotes, escapes, substitutions or separators, joined by semicolons: the
-- parser returns all of them, trimmed, in their order,
-- without those that are empty.
pub parse_commands-join :
    (part : Str) (parts : List Str)
    → all is_plain part ≡ true
    → all (all is_plain) parts ≡ true
    → parse_commands (join part parts) ≡ some (commands_of (part ∷ parts))
unfolding parse_commands
parse_commands-join part parts h hs =
    let input = join part parts in
    rw (any_zero-join part parts h hs, add-one)
      (collect_commands-join (length input) part parts h hs)
