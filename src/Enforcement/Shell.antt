-- ===== src/Enforcement/Shell.antt =====
-- enforcement/shell.rs: a compound command is split into its simple commands. Indices are those of
-- the source, into the bytes of the input. A `while` loop is a recursion over the bytes that are
-- left: `i` is the position of the first of them, `next` the source's loop variable, and bytes
-- before `next` are passed over.
pub mod Slices
pub mod Fuel
pub mod Plain
use cherub.Base.{
  ℕ, zero, suc, ◌+◌, ◌-◌, Bool, true, false, not, ◌&&◌, ◌||◌, Option, none, some, List, [], ◌∷◌,
  ◌++◌, if◌then◌else◌, ltb, ◌==◌, ◌≡◌, refl, length, get_elem?, drop, slice, is_empty, any, ◌>>=◌,
}
use cherub.Base.Bytes.{Str, trim, lit}

-- `Quote::None` is `unquoted`.
pub data Quote : Type 0 where
  unquoted single double : Quote

-- What follows from one byte in `find_matching_paren`: none if it is the closing parenthesis, else
-- whether the next byte is skipped, the depth and the quoting.
unfoldable pub paren_step : Bool → ℕ → ℕ → Quote → Option (Bool × ℕ × Quote)
paren_step has_next b depth single = some (false, depth, (if b == b'\'' then unquoted else single))
paren_step has_next b depth double =
    if b == b'\\' && has_next
    then some (true, depth, double)
    else some (false, depth, (if b == b'"' then unquoted else double))
paren_step has_next b depth unquoted =
    if b == b'\\' && has_next
    then some (true, depth, unquoted)
    else if b == b'\''
    then some (false, depth, single)
    else if b == b'"'
    then some (false, depth, double)
    else if b == b'('
    then some (false, depth + 1, unquoted)
    else if b == b')'
    then (if depth - 1 == 0 then none else some (false, depth - 1, unquoted))
    else some (false, depth, unquoted)

unfoldable pub paren_from : Str → ℕ → Bool → ℕ → Quote → Option ℕ
paren_from [] i skip depth quote = none
paren_from (b ∷ rest) i skip depth quote =
    elim (if skip
      then some (false, depth, quote)
      else paren_step (not (is_empty rest)) b depth quote) [
        | none ↦ some i
        | some (skip', depth', quote') ↦ paren_from rest (i + 1) skip' depth' quote'
      ]

unfoldable pub find_matching_paren : Str → ℕ → Option ℕ
unfolding paren_step paren_from
find_matching_paren bytes start = paren_from (drop start bytes) start false 1 unquoted

unfoldable pub backtick_from : Str → ℕ → Bool → Option ℕ
backtick_from [] i skip = none
backtick_from (b ∷ rest) i skip =
    let later = backtick_from rest (i + 1) (not skip && (b == b'\\' && not (is_empty rest))) in
    if not skip && (not (b == b'\\' && not (is_empty rest)) && b == b'`') then some i else later

unfoldable pub find_backtick_close : Str → ℕ → Option ℕ
unfolding backtick_from
find_backtick_close bytes start = backtick_from (drop start bytes) start false

-- A trimmed slice, if it is not empty, goes to the end of `out`.
unfoldable pub push_trimmed : Str → ℕ → ℕ → List Str → List Str
push_trimmed input start end out =
    let trimmed = trim (slice input start end) in
    if is_empty trimmed then out else out ++ trimmed ∷ []

-- The variables of the loop of `collect_commands`, but for `i`.
pub record Walk : Type 0 where
  pub quote : Quote
  pub cmd_start : ℕ
  pub out : List Str
  pub substitutions : List (ℕ × ℕ)

-- `i + 1 < len && bytes[i + 1] == x`.
unfoldable pub next_is : Str → ℕ → ℕ → Bool
next_is bytes i x = elim (get_elem? bytes (i + 1)) [ none ↦ false | some y ↦ y == x ]

-- A substitution whose inside starts at `inner_start`, and whose end a search has found.
unfoldable pub push_substitution : ℕ → Option ℕ → Walk → Option (ℕ × Walk)
push_substitution inner_start close w = do
  close ← close
  some (close + 1, record w { substitutions = w.substitutions ++ (inner_start, close) ∷ [] })

-- A command boundary of `width` bytes at `i`.
unfoldable pub boundary : Str → ℕ → ℕ → Walk → Option (ℕ × Walk)
boundary input i width w =
    some
      (i + width, record w { cmd_start = i + width; out = push_trimmed input w.cmd_start i w.out })

-- The arm of `Quote::None`.
unquoted_step : Str → ℕ → ℕ → Walk → Option (ℕ × Walk)
unfolding push_substitution boundary
unquoted_step input i b w =
    if b == b'\\' && ltb (i + 1) (length input)
    then some (i + 2, w)
    else if b == b'\''
    then some (i + 1, record w { quote = single })
    else if b == b'"'
    then some (i + 1, record w { quote = double })
    else if b == b'$' && next_is input i b'('
    then push_substitution (i + 2) (find_matching_paren input (i + 2)) w
    else if b == b'`'
    then push_substitution (i + 1) (find_backtick_close input (i + 1)) w
    else if b == b'<' && next_is input i b'('
    then none
    else if b == b'<' && next_is input i b'<'
    then none
    else if b == b';' || b == b'\n'
    then boundary input i 1 w
    else if b == b'&' && next_is input i b'&'
    then boundary input i 2 w
    else if b == b'|' && next_is input i b'|'
    then boundary input i 2 w
    else if b == b'|'
    then boundary input i 1 w
    else some (i + 1, w)

-- The arm of `Quote::Double`.
double_step : Str → ℕ → ℕ → Walk → Option (ℕ × Walk)
unfolding push_substitution
double_step input i b w =
    if b == b'\\' && ltb (i + 1) (length input)
    then some (i + 2, w)
    else if b == b'"'
    then some (i + 1, record w { quote = unquoted })
    else if b == b'$' && next_is input i b'('
    then push_substitution (i + 2) (find_matching_paren input (i + 2)) w
    else if b == b'`'
    then push_substitution (i + 1) (find_backtick_close input (i + 1)) w
    else some (i + 1, w)

-- One round of the loop: the new `i` and the other variables, or an early `return None`.
unfoldable pub step : Quote → Str → ℕ → ℕ → Walk → Option (ℕ × Walk)
unfolding unquoted_step double_step
step single input i b w = some (i + 1, (if b == b'\'' then record w { quote = unquoted } else w))
step double input i b w = double_step input i b w
step unquoted input i b w = unquoted_step input i b w

-- What happens at one byte: it is passed over, or a round of the loop starts at it.
unfoldable pub advance : Str → ℕ → ℕ → ℕ → Walk → Option (ℕ × Walk)
advance input i next b w = if ltb i next then some (next, w) else step w.quote input i b w

unfoldable pub walk : Str → Str → ℕ → ℕ → Walk → Option Walk
walk input [] i next w = some w
walk input (b ∷ rest) i next w = advance input i next b w >>= λ r. walk input rest (i + 1) r.0 r.1

abbrev pub is_unquoted : Quote → Bool
is_unquoted unquoted = true
is_unquoted single = false
is_unquoted double = false

abbrev pub start_walk : List Str → Walk
start_walk out = record { quote = unquoted; cmd_start = 0; out = out; substitutions = [] }

-- The loop over the substitutions, with the recursive call given.
unfoldable pub collect_each :
    (Str → List Str → Option (List Str)) → Str → List (ℕ × ℕ) → List Str → Option (List Str)
collect_each collect input [] out = some out
collect_each collect input ((start, end) ∷ rest) out = do
  out' ← collect (slice input start end) out
  collect_each collect input rest out'

-- The body of `collect_commands`, with the recursive call given.
unfoldable pub collect_body :
    (Str → List Str → Option (List Str)) → Str → List Str → Option (List Str)
collect_body collect input out = do
  w ← walk input input 0 0 (start_walk out)
  let out' = push_trimmed input w.cmd_start (length input) w.out
  if is_unquoted w.quote then collect_each collect input w.substitutions out' else none

-- `collect_commands`: fuel bounds the depth of nested substitutions.
unfoldable pub collect_commands : ℕ → Str → List Str → Option (List Str)
unfolding collect_body
collect_commands zero input out = none
collect_commands (suc fuel) input out = collect_body (collect_commands fuel) input out

unfoldable pub parse_commands : Str → Option (List Str)
unfolding collect_commands step advance walk collect_each push_trimmed next_is find_matching_paren
    find_backtick_close
parse_commands input =
    if any (λ b. b == 0) input then none else collect_commands (length input + 1) input []
