-- ===== src/Telegram/Chunks.antt =====
-- telegram/output.rs: the chunks of a message, of ASCII texts.
use cherub.Base.{
  ℕ, zero, suc, ◌+◌, ◌≤◌, ◌<◌, ◌≡◌, refl, ap, ◌∙◌, Bool, true, false, some, List, [], ◌∷◌, ◌++◌,
  append-nil, length, length-take, length-drop, take, drop, take-append-drop, leb, ltb, leb→le, all,
  All, arith, Bool-cases, Option-cases, inl, inr,
}
use cherub.Base.Bytes.{Str}
use cherub.Telegram.{max_message_len, rfind, is_char_boundary, split_at, split_from, split_message}

-- All the chunks one after the other.
abbrev pub joined : List Str → Str
joined [] = []
joined (chunk ∷ chunks) = chunk ++ joined chunks

abbrev pub is_ascii : Str → Bool
is_ascii s = all (λ b. ltb b 128) s

rfind-lt : (c : ℕ) (s : Str) (i : ℕ) → rfind c s ≡ some i → i < length s
unfolding rfind
rfind-lt c [] i h = cc
rfind-lt c (x ∷ xs) i h = elim (Option-cases (rfind c xs)) [
  | inl e ↦ let here = rw e at h in ground arith
  | inr (j, e) ↦
      let there : some (suc j) ≡ some i = rw e at h in
      let before = rfind-lt c xs j e in ground arith
]

split_at-bounds :
    (limit : ℕ) (s : Str) → 0 < limit → (1 ≤ split_at limit s) × (split_at limit s ≤ limit)
unfolding split_at
split_at-bounds limit s pos = elim (Option-cases (rfind b'\n' (take limit s))) [
  | inl e ↦ rw (e, split_at) (pos, omega arith)
  | inr (i, e) ↦
      let below = rfind-lt b'\n' (take limit s) i e in
      rw (e, split_at) (omega arith, omega (arith, length-take limit s))
]

is_ascii-drop : (n : ℕ) (s : Str) → is_ascii s ≡ true → is_ascii (drop n s) ≡ true
is_ascii-drop zero s h = h
is_ascii-drop (suc n) [] h = h
is_ascii-drop (suc n) (b ∷ s) h = is_ascii-drop n s (ground arith)

is_ascii-boundary : (i : ℕ) (s : Str) → is_ascii s ≡ true → is_char_boundary s i ≡ true
is_ascii-boundary i [] h = refl
is_ascii-boundary zero (b ∷ s) h = ground arith
is_ascii-boundary (suc i) (b ∷ s) h = is_ascii-boundary i s (ground arith)

-- What a good list of chunks of a text is.
abbrev pub IsChunks : ℕ → Str → List Str → Type 0
IsChunks limit text chunks = (joined chunks ≡ text) × All (λ chunk. length chunk ≤ limit) chunks

-- One round of the loop, where the text is too long.
split_from-step :
    (fuel limit b : ℕ) (bs : Str) (rest : List Str)
    → leb (length (b ∷ bs)) limit ≡ false
    → is_char_boundary (b ∷ bs) limit ≡ true
    → split_from fuel limit (drop (split_at limit (b ∷ bs)) (b ∷ bs)) ≡ some rest
    → split_from (suc fuel) limit (b ∷ bs) ≡ some (take (split_at limit (b ∷ bs)) (b ∷ bs) ∷ rest)
unfolding split_from
split_from-step fuel limit b bs rest long boundary later = rw (long, boundary, later) refl

split_from-short :
    (fuel limit b : ℕ) (bs : Str)
    → leb (length (b ∷ bs)) limit ≡ true
    → split_from (suc fuel) limit (b ∷ bs) ≡ some ((b ∷ bs) ∷ [])
unfolding split_from
split_from-short fuel limit b bs short = rw short refl

split_from-IsChunks :
    (fuel limit : ℕ) (text : Str)
    → 0 < limit
    → is_ascii text ≡ true
    → length text < fuel
    → (chunks : List Str) × (split_from fuel limit text ≡ some chunks) × IsChunks limit text chunks
split_from-IsChunks zero limit text pos ascii enough = absurd (omega arith)
split_from-IsChunks (suc fuel) limit [] pos ascii enough =
    ([], unfold split_from in refl, (refl, tt))
split_from-IsChunks (suc fuel) limit (b ∷ bs) pos ascii enough =
    elim (Bool-cases (leb (length (b ∷ bs)) limit)) [
      | inl short ↦ (
        (b ∷ bs) ∷ [],
        split_from-short fuel limit b bs short,
        (append-nil (b ∷ bs), (leb→le _ _ short, tt)),
      )
      | inr long ↦
          let k = split_at limit (b ∷ bs) in
          let (low, high) = split_at-bounds limit (b ∷ bs) pos in
          let shorter : length (drop k (b ∷ bs)) < fuel = omega (arith, length-drop k (b ∷ bs)) in
          let (rest, found, (whole, sized)) =
            split_from-IsChunks fuel limit (drop k (b ∷ bs)) pos (is_ascii-drop k (b ∷ bs) ascii)
              shorter in
          (
            take k (b ∷ bs) ∷ rest,
            split_from-step fuel limit b bs rest long (is_ascii-boundary limit (b ∷ bs) ascii)
                found,
            (
              ap (λ t. take k (b ∷ bs) ++ t) whole ∙ take-append-drop k (b ∷ bs),
              (omega (arith, length-take k (b ∷ bs)), sized),
            ),
          )
    ]

-- An ASCII text is always split: the chunks are together the text, in its order and with nothing
-- lost, and each fits the limit of a message.
pub split_message-IsChunks :
    (text : Str)
    → is_ascii text ≡ true
    → (chunks : List Str) × (split_message text ≡ some chunks)
      × IsChunks max_message_len text chunks
unfolding split_message
split_message-IsChunks text ascii = elim (Bool-cases (leb (length text) max_message_len)) [
  | inl short ↦ (text ∷ [], rw short refl, (append-nil text, (leb→le _ _ short, tt)))
  | inr long ↦
      let (chunks, found, good) =
        split_from-IsChunks (length text + 1) max_message_len text (omega arith) ascii
          (omega arith) in
      (chunks, rw long found, good)
]
