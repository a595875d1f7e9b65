-- ===== src/Telegram.antt =====
-- telegram/output.rs, `split_message`: a long text in chunks that the Telegram API accepts.
pub mod Chunks
use cherub.Base.{
  ℕ, zero, suc, ◌+◌, Bool, true, false, not, ◌&&◌, Option, none, some, List, [], ◌∷◌, if◌then◌else◌,
  length, get_elem?, take, drop, leb, ◌==◌, ◌>>=◌,
}
use cherub.Base.Bytes.{Str}

abbrev pub max_message_len : ℕ
max_message_len = 4096

-- `s.rfind(c)` for an ASCII character.
unfoldable pub rfind : ℕ → Str → Option ℕ
rfind c [] = none
rfind c (x ∷ xs) = elim (rfind c xs) [
  | some i ↦ some (suc i)
  | none ↦ if x == c then some 0 else none
]

-- `s.is_char_boundary(i)` up to the length: no continuation byte stands there.
abbrev pub is_char_boundary : Str → ℕ → Bool
is_char_boundary s i = elim (get_elem? s i) [ none ↦ true | some b ↦ not (leb 128 b && leb b 191) ]

-- Where to split: after the last newline within the limit, or at the limit.
unfoldable pub split_at : ℕ → Str → ℕ
unfolding rfind
split_at limit remaining = elim (rfind b'\n' (take limit remaining)) [
  | some pos ↦ suc pos
  | none ↦ limit
]

-- The loop, on fuel; none is a panic, where the limit falls inside of a character.
unfoldable pub split_from : ℕ → ℕ → Str → Option (List Str)
unfolding split_at
split_from zero limit remaining = none
split_from (suc fuel) limit [] = some []
split_from (suc fuel) limit (b ∷ bs) =
    let later = split_from fuel limit (drop (split_at limit (b ∷ bs)) (b ∷ bs)) in
    if leb (length (b ∷ bs)) limit
    then some ((b ∷ bs) ∷ [])
    else if not (is_char_boundary (b ∷ bs) limit)
    then none
    else later >>= λ rest. some (take (split_at limit (b ∷ bs)) (b ∷ bs) ∷ rest)

unfoldable pub split_message : Str → Option (List Str)
unfolding split_from
split_message text =
    if leb (length text) max_message_len
    then some (text ∷ [])
    else split_from (length text + 1) max_message_len text
