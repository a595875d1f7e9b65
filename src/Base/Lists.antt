-- ===== src/Base/Lists.antt =====
-- Lists measured by native numbers under the library's names, with predicates by recursion.
use Prim.Native.Nat.{ℕ, zero, suc, ◌+◌, ◌-◌, min}
use mathlib.Core.Path.{◌≡◌, refl, ap}
use mathlib.Core.Bool.{Bool, true, false, ◌&&◌, ◌||◌}
use mathlib.Core.List.{List, [], ◌∷◌, ◌++◌, append-nil, append_assoc}
use mathlib.Core.Option.{Option, none, some}
use native.Mathlib.Omega.{arith}
use cherub.Base.Tests.{if◌then◌else◌}

module _ {ℓ} {A : Type ℓ} where
  abbrev pub length : List A → ℕ
  length [] = 0
  length (x ∷ xs) = suc (length xs)

  abbrev pub get_elem? : List A → ℕ → Option A
  get_elem? [] i = none
  get_elem? (x ∷ xs) zero = some x
  get_elem? (x ∷ xs) (suc i) = get_elem? xs i

  abbrev pub take : ℕ → List A → List A
  take zero xs = []
  take (suc n) [] = []
  take (suc n) (x ∷ xs) = x ∷ take n xs

  abbrev pub drop : ℕ → List A → List A
  drop zero xs = xs
  drop (suc n) [] = []
  drop (suc n) (x ∷ xs) = drop n xs

  abbrev pub is_empty : List A → Bool
  is_empty [] = true
  is_empty (x ∷ xs) = false

  pub length-append : (xs ys : List A) → length (xs ++ ys) ≡ length xs + length ys
  length-append [] ys = omega arith
  length-append (x ∷ xs) ys = omega (arith, length-append xs ys)

  pub take-append-drop : (n : ℕ) (xs : List A) → take n xs ++ drop n xs ≡ xs
  take-append-drop zero xs = refl
  take-append-drop (suc n) [] = refl
  take-append-drop (suc n) (x ∷ xs) = ap (λ r. x ∷ r) (take-append-drop n xs)

  pub length-take : (n : ℕ) (xs : List A) → length (take n xs) ≡ min n (length xs)
  length-take zero xs = omega arith
  length-take (suc n) [] = omega arith
  length-take (suc n) (x ∷ xs) = omega (arith, length-take n xs)

  pub length-drop : (n : ℕ) (xs : List A) → length (drop n xs) ≡ length xs - n
  length-drop zero xs = omega arith
  length-drop (suc n) [] = omega arith
  length-drop (suc n) (x ∷ xs) = omega (arith, length-drop n xs)

  -- The slice idiom of Rust, `xs[start..end]`, for `start ≤ end ≤ xs.len()`.
  abbrev pub slice : List A → ℕ → ℕ → List A
  slice xs start end = take (end - start) (drop start xs)

  -- `iter().all(p)` and `iter().any(p)`.
  abbrev pub all : (A → Bool) → List A → Bool
  all p [] = true
  all p (x ∷ xs) = p x && all p xs

  abbrev pub any : (A → Bool) → List A → Bool
  any p [] = false
  any p (x ∷ xs) = p x || any p xs

  -- `iter().find(p)`: the first element that passes.
  abbrev pub find : (A → Bool) → List A → Option A
  find p [] = none
  find p (x ∷ xs) = if p x then some x else find p xs

  abbrev pub filter : (A → Bool) → List A → List A
  filter p [] = []
  filter p (x ∷ xs) = let rest = filter p xs in if p x then x ∷ rest else rest

module _ {ℓ κ} {A : Type ℓ} (P : A → Type κ) where
  -- A predicate on every element, by recursion.
  abbrev pub All : List A → Type κ
  All [] = Unit
  All (first ∷ others) = P first × All others

  pub All-append : (front back : List A) → All front → All back → All (front ++ back)
  All-append [] back none_left held = held
  All-append (first ∷ front) back (head, tail) held = (head, All-append front back tail held)

module _ {ℓ κ μ} {A : Type ℓ} (P : A → Type κ) (Q : A → Type μ) where
  pub All-weaken : (xs : List A) → ((x : A) → P x → Q x) → All P xs → All Q xs
  All-weaken [] f h = tt
  All-weaken (x ∷ xs) f h = (f x h.0, All-weaken xs f h.1)

module _ {ℓ} {A : Type ℓ} where
  -- `xs` stands in `ys` as a contiguous part.
  abbrev pub IsInfix : List A → List A → Type ℓ
  IsInfix xs ys = (pre : List A) × (post : List A) × (pre ++ (xs ++ post) ≡ ys)

  pub IsInfix-refl : (xs : List A) → IsInfix xs xs
  IsInfix-refl xs = ([], [], append-nil xs)

  pub IsInfix-trans : (xs : List A) {ys zs : List A} → IsInfix xs ys → IsInfix ys zs → IsInfix xs zs
  IsInfix-trans xs (p, q, e) (p', q', e') = (p' ++ p, q ++ q', rw (← e', ← e) (simp append_assoc))

  pub take-IsInfix : (n : ℕ) (xs : List A) → IsInfix (take n xs) xs
  take-IsInfix n xs = ([], drop n xs, take-append-drop n xs)

  pub drop-IsInfix : (n : ℕ) (xs : List A) → IsInfix (drop n xs) xs
  drop-IsInfix n xs = (take n xs, [], rw append-nil (take-append-drop n xs))

  pub slice-IsInfix : (xs : List A) (i j : ℕ) → IsInfix (slice xs i j) xs
  slice-IsInfix xs i j =
      IsInfix-trans (slice xs i j) (take-IsInfix (j - i) (drop i xs)) (drop-IsInfix i xs)

  pub drop-append : (pre xs : List A) → drop (length pre) (pre ++ xs) ≡ xs
  drop-append [] xs = refl
  drop-append (p ∷ pre) xs = drop-append pre xs

  pub take-append : (xs post : List A) → take (length xs) (xs ++ post) ≡ xs
  take-append [] post = refl
  take-append (x ∷ xs) post = ap (λ r. x ∷ r) (take-append xs post)

  pub slice_middle :
      (pre xs post : List A) (i j : ℕ)
      → i ≡ length pre
      → j ≡ length pre + length xs
      → slice (pre ++ (xs ++ post)) i j ≡ xs
  slice_middle pre xs post i j ei ej =
      let width : j - i ≡ length xs = omega arith in
      rw (width, ei, drop-append pre (xs ++ post)) (take-append xs post)
