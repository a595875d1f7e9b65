-- ===== src/Tools/File/Lines.antt =====
-- tools/file.rs: the line ends that the edit of a file turns to and fro.
use cherub.Base.{
  ℕ, ◌≡◌, refl, ap, inl, inr, false, ◌&&◌, Bool-cases, [], ◌∷◌, ◌==◌, if◌then◌else◌, arith,
}
use cherub.Base.Bytes.{Str}
use cherub.Tools.File.{hits, replace_from, replace, crlf, lf}

-- LF for each CRLF.
abbrev pub lf_ends : Str → Str
lf_ends [] = []
lf_ends (x ∷ []) = x ∷ []
lf_ends (x ∷ (y ∷ s)) =
    let after = lf_ends s in
    let next = lf_ends (y ∷ s) in if x == 13 && y == 10 then 10 ∷ after else x ∷ next

-- CRLF for each LF.
abbrev pub crlf_ends : Str → Str
crlf_ends [] = []
crlf_ends (x ∷ s) = let rest = crlf_ends s in if x == 10 then 13 ∷ (10 ∷ rest) else x ∷ rest

hits-crlf : (x y : ℕ) (s : Str) → hits crlf x (y ∷ s) ≡ (x == 13 && y == 10)
hits-crlf x y s = ground arith

hits-lf : (x : ℕ) (s : Str) → hits lf x s ≡ (x == 10)
hits-lf x s = ground arith

hits-crlf_end : (x : ℕ) → hits crlf x [] ≡ false
hits-crlf_end x = ground arith

-- What `replace` does to line ends.
pub replace-lf_ends : (s : Str) → replace crlf lf s ≡ lf_ends s
unfolding replace replace_from
replace-lf_ends [] = refl
replace-lf_ends (x ∷ []) = rw (hits-crlf_end x) refl
replace-lf_ends (x ∷ (y ∷ s)) = elim (Bool-cases (x == 13 && y == 10)) [
  | inl hit ↦ rw (hits-crlf x y s, hit) (ap (λ t. 10 ∷ t) (replace-lf_ends s))
  | inr miss ↦ rw (hits-crlf x y s, miss) (ap (λ t. x ∷ t) (replace-lf_ends (y ∷ s)))
]

pub replace-crlf_ends : (s : Str) → replace lf crlf s ≡ crlf_ends s
unfolding replace replace_from
replace-crlf_ends [] = refl
replace-crlf_ends (x ∷ s) = elim (Bool-cases (x == 10)) [
  | inl hit ↦ rw (hits-lf x s, hit) (ap (λ t. 13 ∷ (10 ∷ t)) (replace-crlf_ends s))
  | inr miss ↦ rw (hits-lf x s, miss) (ap (λ t. x ∷ t) (replace-crlf_ends s))
]
