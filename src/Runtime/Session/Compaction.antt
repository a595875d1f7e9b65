-- ===== src/Runtime/Session/Compaction.antt =====
-- runtime/session.rs, `split_for_compaction`: where the conversation is cut.
use cherub.Base.{
  ℕ, zero, suc, ◌+◌, ◌-◌, ◌≤◌, ◌<◌, ◌≡◌, ◌≢◌, refl, ◌∙◌, Bool, true, false, none, some, List, [],
  ◌∷◌, ◌++◌, ltb, leb, leb→le, length, length-take, length-drop, get_elem?, take, drop,
  take-append-drop, arith, Bool-cases, inl, inr, ◌⊎◌,
}
use cherub.Providers.{Message, is_user}
use cherub.Runtime.Session.{
  Session, Split, panics, refused, split, walk_back, split_at, split_for_compaction,
}

module _ {N : Type 0} where
  -- Whether a user message stands at a position.
  abbrev pub user_at : List (Message N) → ℕ → Bool
  user_at messages i = elim (get_elem? messages i) [ none ↦ false | some m ↦ is_user m ]

  -- A position that the backward walk from `k` may end at.
  pub record IsBoundary (messages : List (Message N)) (k j : ℕ) : Type 0 where
    pub back : j ≤ k
    pub at_user : (j ≡ 0) ⊎ (user_at messages j ≡ true)
    pub nearest : (i : ℕ) → j < i → i ≤ k → user_at messages i ≡ false

  get_elem?-some :
      (ms : List (Message N)) (k : ℕ) → k < length ms → (m : Message N) × (get_elem? ms k ≡ some m)
  get_elem?-some [] k h = absurd (omega arith)
  get_elem?-some (m ∷ ms) zero h = (m, refl)
  get_elem?-some (m ∷ ms) (suc k) h = get_elem?-some ms k (omega arith)

  nearest_step :
      (ms : List (Message N)) (k j : ℕ)
      → user_at ms (suc k) ≡ false
      → ((i : ℕ) → j < i → i ≤ k → user_at ms i ≡ false)
      → (i : ℕ) → j < i
      → i ≤ suc k
      → user_at ms i ≡ false
  nearest_step ms k j here before i lt le = elim (Bool-cases (leb i k)) [
    | inl e ↦ before i lt (ground arith)
    | inr e ↦ let same : i ≡ suc k = ground arith in rw same here
  ]

  -- Inside the messages the walk does not panic, and ends at the nearest user message or at 0.
  walk_back-IsBoundary :
      (ms : List (Message N)) (k : ℕ)
      → k < length ms
      → (j : ℕ) × (walk_back ms k ≡ some j) × IsBoundary ms k j
  unfolding walk_back
  walk_back-IsBoundary ms zero h = (
    0,
    refl,
    record { back = omega arith; at_user = inl refl; nearest = λ i lt le. absurd (omega arith) },
  )
  walk_back-IsBoundary ms (suc k) h =
      let (m, e) = get_elem?-some ms (suc k) h in
      elim (Bool-cases (is_user m)) [
        | inl found ↦ (
          suc k,
          rw (e, found, walk_back),
          record {
            back = omega arith;
            at_user = inr (rw (e, user_at) found);
            nearest = λ i lt le. absurd (omega arith);
          },
        )
        | inr other ↦
            let (j, walked, b) = walk_back-IsBoundary ms k (omega arith) in
            (
              j,
              rw (e, other, walk_back) walked,
              record {
                back = omega (arith, b.back);
                at_user = b.at_user;
                nearest = nearest_step ms k j (rw (e, user_at) other) b.nearest;
              },
            )
      ]

  -- A good cut: nothing is lost, the old part is worth summarising, the preserved messages stay, and
  -- the recent part begins with a user message, unless none but the first message is one before it.
  pub record IsCut (messages : List (Message N)) (preserve_recent : ℕ)
      (old recent : List (Message N)) : Type 0 where
    pub whole : old ++ recent ≡ messages
    pub useful : 2 ≤ length old
    pub kept : preserve_recent ≤ length recent
    pub boundary :
        (user_at recent 0 ≡ true)
        ⊎ ((length recent ≡ preserve_recent)
            × ((i : ℕ) → 0 < i → i ≤ length old → user_at messages i ≡ false))

  user_at-drop : (n : ℕ) (ms : List (Message N)) → user_at (drop n ms) 0 ≡ user_at ms n
  user_at-drop zero ms = refl
  user_at-drop (suc n) [] = refl
  user_at-drop (suc n) (m ∷ ms) = user_at-drop n ms

  -- The cut at `at`, which is the boundary `j` or, where that is 0, the intended split.
  take-drop-IsCut :
      (ms : List (Message N)) (preserve at : ℕ)
      → at + preserve ≤ length ms
      → 2 ≤ at
      → (user_at ms at ≡ true)
        ⊎ ((at + preserve ≡ length ms) × ((i : ℕ) → 0 < i → i ≤ at → user_at ms i ≡ false))
      → IsCut ms preserve (take at ms) (drop at ms)
  take-drop-IsCut ms preserve at fits useful choice = record {
    whole = take-append-drop at ms;
    useful = omega (arith, length-take at ms);
    kept = omega (arith, length-drop at ms);
    boundary = elim choice [
      | inl user ↦ inl (user_at-drop at ms ∙ user)
      | inr (ends, none_user) ↦ inr (
        omega (arith, length-drop at ms),
        λ i pos le. none_user i pos (omega (arith, length-take at ms)),
      )
    ];
  }

  split_at-IsCut :
      (ms : List (Message N)) (preserve raw j : ℕ) (old recent : List (Message N))
      → raw + preserve ≡ length ms
      → IsBoundary ms raw j
      → split_at ms raw j ≡ split old recent
      → IsCut ms preserve old recent
  unfolding split_at
  split_at-IsCut ms preserve raw zero old recent fits b e = elim (Bool-cases (ltb raw 2)) [
    | inl short ↦ cc (let e' : refused ≡ split old recent = rw short at e in e')
    | inr long ↦
        let e' : split (take raw ms) (drop raw ms) ≡ split old recent = rw long at e in
        let taken : take raw ms ≡ old = cc in
        let dropped : drop raw ms ≡ recent = cc in
        rw (← taken, ← dropped)
          (take-drop-IsCut ms preserve raw (omega arith) (ground arith) (inr (fits, b.nearest)))
  ]
  split_at-IsCut ms preserve raw (suc j) old recent fits b e = elim (Bool-cases (ltb (suc j) 2)) [
    | inl short ↦ cc (let e' : refused ≡ split old recent = ground arith in e')
    | inr long ↦
        let e' : split (take (suc j) ms) (drop (suc j) ms) ≡ split old recent = ground arith in
        let taken : take (suc j) ms ≡ old = cc in
        let dropped : drop (suc j) ms ≡ recent = cc in
        let user : user_at ms (suc j) ≡ true = ground (arith, b.at_user) in
        rw (← taken, ← dropped)
          (take-drop-IsCut ms preserve (suc j) (omega (arith, b.back)) (ground arith) (inl user))
  ]

  split_for_compaction-walked :
      (s : Session N) (preserve j : ℕ)
      → leb (length s.messages) (preserve + 2) ≡ false
      → walk_back s.messages (length s.messages - preserve) ≡ some j
      → split_for_compaction s preserve ≡ split_at s.messages (length s.messages - preserve) j
  unfolding split_for_compaction
  split_for_compaction-walked s preserve j long walked = rw (long, walked)

  split_for_compaction-short :
      (s : Session N) (preserve : ℕ)
      → leb (length s.messages) (preserve + 2) ≡ true
      → split_for_compaction s preserve ≡ refused
  unfolding split_for_compaction
  split_for_compaction-short s preserve short = rw short

  split_at-ne_panics : (ms : List (Message N)) (raw j : ℕ) → split_at ms raw j ≢ panics
  unfolding split_at
  split_at-ne_panics ms raw j e = ground arith

  -- There is nothing to gain: the messages are few, or the only user message that a cut could be
  -- made at, among those not to preserve, is the second one.
  abbrev pub IsRefusable : List (Message N) → ℕ → Type 0
  IsRefusable messages preserve =
      (length messages ≤ preserve + 2)
      ⊎ ((user_at messages 1 ≡ true)
          × ((i : ℕ) → 1 < i → i ≤ length messages - preserve → user_at messages i ≡ false))

  split_at-IsRefusable :
      (ms : List (Message N)) (preserve j : ℕ)
      → preserve + 2 < length ms
      → IsBoundary ms (length ms - preserve) j
      → split_at ms (length ms - preserve) j ≡ refused
      → IsRefusable ms preserve
  unfolding split_at
  split_at-IsRefusable ms preserve zero long b e =
      let far : ltb (length ms - preserve) 2 ≡ false = ground arith in
      cc (
        let e' : split (take (length ms - preserve) ms) (drop (length ms - preserve) ms) ≡ refused =
          rw far at e in
        e')
  split_at-IsRefusable ms preserve (suc zero) long b e =
      let user : user_at ms 1 ≡ true = ground (arith, b.at_user) in inr (user, b.nearest)
  split_at-IsRefusable ms preserve (suc (suc j)) long b e = ground arith

  -- A good result: no panic, a refusal only if there is nothing to gain, and only good cuts.
  pub data IsSplit (messages : List (Message N)) (preserve : ℕ) : Split N → Type 0 where
    is_refused : IsRefusable messages preserve → IsSplit messages preserve refused
    is_cut :
        {old recent : List (Message N)}
        → preserve + 2 < length messages
        → IsCut messages preserve old recent
        → IsSplit messages preserve (split old recent)

  IsSplit-of :
      (ms : List (Message N)) (preserve : ℕ) (o : Split N)
      → o ≢ panics
      → preserve + 2 < length ms
      → (o ≡ refused → IsRefusable ms preserve)
      → ((old recent : List (Message N)) → o ≡ split old recent → IsCut ms preserve old recent)
      → IsSplit ms preserve o
  IsSplit-of ms preserve panics ne long few cut = absurd (ne refl)
  IsSplit-of ms preserve refused ne long few cut = is_refused (few refl)
  IsSplit-of ms preserve (split old recent) ne long few cut = is_cut long (cut old recent refl)

  -- With at least one message to preserve, the split never panics. It is refused only if there are
  -- at most two messages more than those to preserve, where it is always refused, or if the last user
  -- message before them is the second message of all. Otherwise the two parts are together the conversation, the old one
  -- has at least two messages, the recent one has those to preserve, and it begins with a user
  -- message or, if none stands among the old ones after the first, is exactly those to preserve.
  pub split_for_compaction-IsSplit :
      (s : Session N) (preserve : ℕ)
      → 1 ≤ preserve
      → IsSplit s.messages preserve (split_for_compaction s preserve)
  split_for_compaction-IsSplit s preserve pos =
      let raw = length s.messages - preserve in
      elim (Bool-cases (leb (length s.messages) (preserve + 2))) [
        | inl short ↦
            rw (split_for_compaction-short s preserve short) (is_refused (inl (leb→le _ _ short)))
        | inr long ↦
            let (j, walked, b) = walk_back-IsBoundary s.messages raw (ground arith) in
            rw (split_for_compaction-walked s preserve j long walked) (
              IsSplit-of s.messages preserve (split_at s.messages raw j)
                (split_at-ne_panics s.messages raw j) (ground arith)
                (split_at-IsRefusable s.messages preserve j (ground arith) b)
                (λ old recent e.
                  split_at-IsCut s.messages preserve raw j old recent (ground arith) b e))
      ]
