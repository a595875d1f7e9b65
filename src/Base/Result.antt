-- ===== src/Base/Result.antt =====
-- Rust's `Result` with the `?` operator and `collect` into a Result.
use mathlib.Core.Path.{◌≡◌, refl}
use mathlib.Core.List.{List, [], ◌∷◌}
use mathlib.Core.Option.{Option, none, some}

pub data Result {ℓ} (E A : Type ℓ) : Type ℓ where
  ok : A → Result E A
  err : E → Result E A

infixl 5 ◌>>=◌
abbrev pub ◌>>=◌ {ℓ} : {E A B : Type ℓ} → Result E A → (A → Result E B) → Result E B
ok a >>= f = f a
err e >>= f = err e

-- A chain that succeeds has a first step that does.
pub >>=-eq-ok {ℓ} :
    {E A B : Type ℓ} {last : B} (step : Result E A) (next : A → Result E B)
    → (step >>= next) ≡ ok last
    → (value : A) × (step ≡ ok value) × (next value ≡ ok last)
>>=-eq-ok (err failure) next h = cc
>>=-eq-ok (ok value) next h = (value, refl, h)

-- `option.ok_or(e)`.
abbrev pub ok_or {ℓ} : {E A : Type ℓ} → E → Option A → Result E A
ok_or e none = err e
ok_or e (some a) = ok a

-- `iter().map(f).collect::<Result<Vec<_>, _>>()`: stops at the first error.
unfoldable pub try_map {ℓ} : {E A B : Type ℓ} → (A → Result E B) → List A → Result E (List B)
try_map f [] = ok []
try_map f (x ∷ xs) = let rest = try_map f xs in f x >>= λ y. rest >>= λ ys. ok (y ∷ ys)
