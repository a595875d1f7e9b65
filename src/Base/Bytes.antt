-- ===== src/Base/Bytes.antt =====
-- Rust's `str` as its UTF-8 bytes, with the operations that the program calls.
use Prim.Native.Char.{code}
use Prim.Native.Nat.{ℕ, ◌+◌, ◌-◌}
use Prim.Native.String.{String}
use mathlib.Core.Path.{◌≡◌, refl}
use mathlib.Core.Bool.{Bool, true, false, ◌&&◌, ◌||◌}
use mathlib.Core.List.{List, [], ◌∷◌, reverse}
use mathlib.Core.Option.{Option, none, some}
use native.Mathlib.Omega.{arith}
use cherub.Base.Tests.{◌==◌, leb, ltb, if◌then◌else◌}
use cherub.Base.Lists.{length, take, drop, IsInfix, IsInfix-trans, take-IsInfix, drop-IsInfix}

-- A byte is a number below 256.
abbrev pub Str : Type 0
Str = List ℕ

-- The bytes of an ASCII literal.
abbrev pub lit : String → Str
lit String.[] = []
lit (String.◌∷◌ c s) = code c ∷ lit s

abbrev pub str_eq : Str → Str → Bool
str_eq [] [] = true
str_eq [] (y ∷ ys) = false
str_eq (x ∷ xs) [] = false
str_eq (x ∷ xs) (y ∷ ys) = x == y && str_eq xs ys

pub str_eq→eq : (s t : Str) → str_eq s t ≡ true → s ≡ t
str_eq→eq [] [] h = refl
str_eq→eq [] (y ∷ ys) h = cc
str_eq→eq (x ∷ xs) [] h = cc
str_eq→eq (x ∷ xs) (y ∷ ys) h = ground (arith, str_eq→eq xs ys)

pub str_eq_refl : (s : Str) → str_eq s s ≡ true
str_eq_refl [] = refl
str_eq_refl (x ∷ xs) = ground (arith, str_eq_refl xs)

-- The order of `str`, byte by byte.
abbrev pub str_lt : Str → Str → Bool
str_lt [] [] = false
str_lt [] (y ∷ ys) = true
str_lt (x ∷ xs) [] = false
str_lt (x ∷ xs) (y ∷ ys) = let rest = str_lt xs ys in ltb x y || (x == y && rest)

-- `s.strip_prefix(p)`.
abbrev pub strip_prefix : Str → Str → Option Str
strip_prefix [] s = some s
strip_prefix (p ∷ ps) [] = none
strip_prefix (p ∷ ps) (x ∷ xs) = let rest = strip_prefix ps xs in if p == x then rest else none

-- `s.starts_with(p)`.
abbrev pub starts_with : Str → Str → Bool
starts_with [] s = true
starts_with (p ∷ ps) [] = false
starts_with (p ∷ ps) (x ∷ xs) = p == x && starts_with ps xs

-- `s.contains(needle)`.
abbrev pub contains : Str → Str → Bool
contains needle [] = starts_with needle []
contains needle (x ∷ xs) = starts_with needle (x ∷ xs) || contains needle xs

-- `s.split_once(sep).map(|p| p.1)`: what follows the first occurrence of `sep`.
unfoldable pub split_once_after : Str → Str → Option Str
split_once_after sep [] = strip_prefix sep []
split_once_after sep (x ∷ xs) = elim (strip_prefix sep (x ∷ xs)) [
  | some rest ↦ some rest
  | none ↦ split_once_after sep xs
]

-- `s.split(c).next()`: what precedes the first `c`; it is always there.
unfoldable pub before : ℕ → Str → Str
before c [] = []
before c (x ∷ xs) = if x == c then [] else x ∷ before c xs

-- White space as `char::is_whitespace` has it, by the length of its encoding.
is_white1 : ℕ → Bool
is_white1 a = (leb 9 a && leb a 13) || a == 32

is_white2 : ℕ → ℕ → Bool
is_white2 a b = a == 0xC2 && (b == 0x85 || b == 0xA0)

is_white3 : ℕ → ℕ → ℕ → Bool
is_white3 a b c =
    (a == 0xE1 && b == 0x9A && c == 0x80)
    || (a == 0xE2
        && b == 0x80
        && ((leb 0x80 c && leb c 0x8A) || c == 0xA8 || c == 0xA9 || c == 0xAF))
    || (a == 0xE2 && b == 0x81 && c == 0x9F)
    || (a == 0xE3 && b == 0x80 && c == 0x80)

-- The bytes of white space at the start of a text.
white_start : Str → ℕ
unfolding is_white1 is_white2 is_white3
white_start [] = 0
white_start (a ∷ []) = if is_white1 a then 1 else 0
white_start (a ∷ b ∷ []) =
    let after1 = 1 + white_start (b ∷ []) in
    if is_white1 a then after1 else if is_white2 a b then 2 else 0
white_start (a ∷ b ∷ c ∷ s) =
    let after1 = 1 + white_start (b ∷ c ∷ s) in
    let after2 = 2 + white_start (c ∷ s) in
    let after3 = 3 + white_start s in
    if is_white1 a
    then after1
    else if is_white2 a b
    then after2
    else if is_white3 a b c
    then after3
    else 0

-- The bytes of white space at the end of a text that is given reversed.
white_end : Str → ℕ
unfolding is_white1 is_white2 is_white3
white_end [] = 0
white_end (a ∷ []) = if is_white1 a then 1 else 0
white_end (a ∷ b ∷ []) =
    let after1 = 1 + white_end (b ∷ []) in
    if is_white1 a then after1 else if is_white2 b a then 2 else 0
white_end (a ∷ b ∷ c ∷ s) =
    let after1 = 1 + white_end (b ∷ c ∷ s) in
    let after2 = 2 + white_end (c ∷ s) in
    let after3 = 3 + white_end s in
    if is_white1 a
    then after1
    else if is_white2 b a
    then after2
    else if is_white3 c b a
    then after3
    else 0

unfoldable pub trim_start : Str → Str
unfolding white_start
trim_start s = drop (white_start s) s

unfoldable pub trim_end : Str → Str
unfolding white_end
trim_end s = take (length s - white_end (reverse s)) s

-- `s.trim()`.
unfoldable pub trim : Str → Str
unfolding trim_start trim_end
trim s = trim_end (trim_start s)

pub trim-IsInfix : (s : Str) → IsInfix (trim s) s
unfolding trim
trim-IsInfix s =
    IsInfix-trans (trim s)
      (take-IsInfix (length (trim_start s) - white_end (reverse (trim_start s))) (trim_start s))
      (drop-IsInfix (white_start s) s)
