-- ===== src/Tools/CredentialBroker/Scope.antt =====
-- tools/credential_broker.rs: the hosts and the methods that a credential is for.
use cherub.Base.{
  ℕ, zero, suc, ◌-◌, ◌≡◌, ◌≢◌, refl, ap, ◌∙◌, ◌⊎◌, inl, inr, true, false, ◌&&◌, ◌||◌, Bool,
  if◌then◌else◌, some, List, [], ◌∷◌, ◌++◌, length, get_elem?, drop, take, any, ltb, arith,
  &&_eq_true, Bool-cases, Option-cases, ltb→lt,
}
use cherub.Base.Bytes.{Str, lit, str_eq, str_eq→eq, str_eq_refl, strip_prefix}
use cherub.Tools.CredentialBroker.{
  ends_with, byte_is, to_lowercase, host_matches, method_to_capability,
}

-- What it means for a host to be covered by a pattern, by cases.
pub data IsCovered (host pattern : Str) : Type 0 where
  any_host : pattern ≡ lit "*" → IsCovered host pattern
  subdomain :
      (label suffix : Str)
      → pattern ≡ lit "*." ++ suffix
      → host ≡ label ++ b'.' ∷ suffix
      → IsCovered host pattern
  exact : host ≡ pattern → IsCovered host pattern

pub strip_prefix-eq : (p s rest : Str) → strip_prefix p s ≡ some rest → s ≡ p ++ rest
strip_prefix-eq [] s rest h = ground arith
strip_prefix-eq (x ∷ p) [] rest h = cc
strip_prefix-eq (x ∷ p) (y ∷ s) rest h = ground (arith, strip_prefix-eq p s rest)

split_byte :
    (host : Str) (i c : ℕ)
    → byte_is (get_elem? host i) c ≡ true
    → host ≡ take i host ++ c ∷ drop (suc i) host
split_byte [] i c h = cc
split_byte (x ∷ host) zero c h = ground arith
split_byte (x ∷ host) (suc i) c h = ap (λ t. x ∷ t) (split_byte host i c h)

pub ends_with-split :
    (host suffix : Str) (c : ℕ)
    → ends_with suffix host ≡ true
    → ltb (length suffix) (length host) ≡ true
    → byte_is (get_elem? host (length host - length suffix - 1)) c ≡ true
    → (label : Str) × (host ≡ label ++ c ∷ suffix)
ends_with-split host suffix c ends shorter dot =
    let i = length host - length suffix - 1 in
    let next : suc i ≡ length host - length suffix = omega (arith, ltb→lt _ _ shorter) in
    let tail = str_eq→eq (drop (length host - length suffix) host) suffix (&&_eq_true _ _ ends).1 in
    (
      take i host,
      split_byte host i c dot
          ∙ ap (λ j. take i host ++ c ∷ drop j host) next
          ∙ ap (λ t. take i host ++ c ∷ t) tail,
    )

-- A pattern matches only the hosts that it covers: every host for `*`, the hosts below `suffix`, but
-- not `suffix` itself or a host that merely ends in its letters, for `*.suffix`, and otherwise the
-- host itself.
pub host_matches-IsCovered :
    (host pattern : Str) → host_matches host pattern ≡ true → IsCovered host pattern
unfolding host_matches
host_matches-IsCovered host pattern h = elim (Bool-cases (str_eq pattern (lit "*"))) [
  | inl star ↦ IsCovered.any_host (str_eq→eq pattern (lit "*") star)
  | inr other ↦ elim (Option-cases (strip_prefix (lit "*.") pattern)) [
    | inl e ↦
        let same : str_eq host pattern ≡ true =
          rw (other, host_matches) at (rw (e, host_matches) at h) in
        IsCovered.exact (str_eq→eq host pattern same)
    | inr (suffix, e) ↦
        let all_three : (ends_with suffix host
              && ltb (length suffix) (length host)
              && byte_is (get_elem? host (length host - length suffix - 1)) b'.')
            ≡ true =
          rw (other, host_matches) at (rw (e, host_matches) at h) in
        let (both, dot) = &&_eq_true _ _ all_three in
        let (ends, shorter) = &&_eq_true _ _ both in
        let (label, split) = ends_with-split host suffix b'.' ends shorter dot in
        IsCovered.subdomain label suffix (strip_prefix-eq (lit "*.") pattern suffix e) split
  ]
]

-- One of the patterns covers the host.
abbrev pub IsCoveredBy : List Str → Str → Type 0
IsCoveredBy [] host = ⊥
IsCoveredBy (pattern ∷ patterns) host = IsCovered host pattern ⊎ IsCoveredBy patterns host

pub any-IsCoveredBy :
    (patterns : List Str) (host : Str)
    → any (λ p. host_matches host p) patterns ≡ true
    → IsCoveredBy patterns host
any-IsCoveredBy [] host h = cc
any-IsCoveredBy (p ∷ ps) host h = elim (Bool-cases (host_matches host p)) [
  | inl here ↦ inl (host_matches-IsCovered host p here)
  | inr there ↦ inr (any-IsCoveredBy ps host (rw there at h))
]

abbrev pub IsOneOf : Str → List Str → Type 0
IsOneOf s [] = ⊥
IsOneOf s (t ∷ ts) = (s ≡ t) ⊎ IsOneOf s ts

pub any-IsOneOf :
    (test : Str → Bool) (s : Str) (ts : List Str)
    → ((t : Str) → test t ≡ true → s ≡ t)
    → any test ts ≡ true
    → IsOneOf s ts
any-IsOneOf test s [] same h = cc
any-IsOneOf test s (t ∷ ts) same h = elim (Bool-cases (test t)) [
  | inl here ↦ inl (same t here)
  | inr there ↦ inr (any-IsOneOf test s ts same (rw there at h))
]

IsOneOf-any : (s : Str) (ts : List Str) → IsOneOf s ts → any (λ t. str_eq s t) ts ≡ true
IsOneOf-any s [] h = absurd h
IsOneOf-any s (t ∷ ts) (inl here) = rw (← here, str_eq_refl s) refl
IsOneOf-any s (t ∷ ts) (inr there) = ground (arith, IsOneOf-any s ts there)

abbrev pub reading : List Str
reading = lit "get" ∷ lit "head" ∷ lit "options" ∷ []

-- The capability that a method needs, in small letters: every method that does not read or delete
-- needs to write.
pub data IsNeeded (method : Str) : Str → Type 0 where
  reads : IsOneOf (to_lowercase method) reading → IsNeeded method (lit "read")
  deletes : to_lowercase method ≡ lit "delete" → IsNeeded method (lit "delete")
  writes :
      (IsOneOf (to_lowercase method) reading → ⊥)
      → to_lowercase method ≢ lit "delete"
      → IsNeeded method (lit "write")

str_eq-ne : (s t : Str) → str_eq s t ≡ false → s ≢ t
str_eq-ne s t h e = let same : str_eq s t ≡ true = rw e (str_eq_refl t) in cc

reading-any :
    (m : Str)
    → (str_eq m (lit "get") || str_eq m (lit "head") || str_eq m (lit "options"))
      ≡ any (λ t. str_eq m t) reading
reading-any m = ground arith

abbrev is_writing : Str → Bool
is_writing m = str_eq m (lit "post") || str_eq m (lit "put") || str_eq m (lit "patch")

delete-is_writing : (m : Str) → m ≡ lit "delete" → is_writing m ≡ false
delete-is_writing m e = rw e refl

-- The tests that `method_to_capability` makes in turn.
tests-IsNeeded :
    (method : Str) (is_read is_write is_delete : Bool)
    → any (λ t. str_eq (to_lowercase method) t) reading ≡ is_read
    → is_writing (to_lowercase method) ≡ is_write
    → str_eq (to_lowercase method) (lit "delete") ≡ is_delete
    → IsNeeded method (
        if is_read
        then lit "read"
        else if is_write
        then lit "write"
        else if is_delete
        then lit "delete"
        else lit "write")
tests-IsNeeded method true w d r e f = reads (
    any-IsOneOf (λ t. str_eq (to_lowercase method) t) (to_lowercase method) reading
      (λ t. str_eq→eq (to_lowercase method) t) r)
tests-IsNeeded method false true d r e f =
    writes (λ one. let found = IsOneOf-any (to_lowercase method) reading one in cc)
      (λ same. let none_written = delete-is_writing (to_lowercase method) same in cc)
tests-IsNeeded method false false true r e f = deletes (str_eq→eq _ _ f)
tests-IsNeeded method false false false r e f =
    writes (λ one. let found = IsOneOf-any (to_lowercase method) reading one in cc)
      (str_eq-ne (to_lowercase method) (lit "delete") f)

pub method_to_capability-IsNeeded : (method : Str) → IsNeeded method (method_to_capability method)
unfolding method_to_capability
method_to_capability-IsNeeded method = rw (reading-any (to_lowercase method)) (
    tests-IsNeeded method (any (λ t. str_eq (to_lowercase method) t) reading)
      (is_writing (to_lowercase method)) (str_eq (to_lowercase method) (lit "delete")) refl refl
      refl)
