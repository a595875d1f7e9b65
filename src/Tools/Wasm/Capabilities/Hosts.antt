-- ===== src/Tools/Wasm/Capabilities/Hosts.antt =====
-- tools/wasm/capabilities.rs: the hosts that the patterns of a capability cover.
use cherub.Base.{
  ◌-◌, ◌≡◌, ◌⊎◌, inl, inr, true, List, [], ◌∷◌, ◌++◌, ◌&&◌, length, get_elem?, any, ltb, &&_eq_true,
  Option-cases, Bool-cases,
}
use cherub.Base.Bytes.{Str, lit, str_eq, str_eq→eq, strip_prefix}
use cherub.Tools.CredentialBroker.{ends_with, byte_is}
use cherub.Tools.CredentialBroker.Scope.{strip_prefix-eq, ends_with-split}
use cherub.Tools.Wasm.Capabilities.{HttpCapability, pattern_allows, host_allowed}

-- A host is the pattern itself, or lies below the suffix of a wildcard.
pub data IsNamed (pattern host : Str) : Type 0 where
  exact : host ≡ pattern → IsNamed pattern host
  below :
      (label suffix : Str)
      → pattern ≡ lit "*." ++ suffix
      → host ≡ label ++ b'.' ∷ suffix
      → IsNamed pattern host

abbrev pub IsListed : List Str → Str → Type 0
IsListed [] host = ⊥
IsListed (pattern ∷ patterns) host = IsNamed pattern host ⊎ IsListed patterns host

pattern_allows-IsNamed :
    (pattern host : Str)
    → pattern_allows (strip_prefix (lit "*.") pattern) pattern host ≡ true
    → IsNamed pattern host
pattern_allows-IsNamed pattern host h = elim (Option-cases (strip_prefix (lit "*.") pattern)) [
  | inl e ↦
      let same : str_eq host pattern ≡ true = rw e at h in
      IsNamed.exact (str_eq→eq host pattern same)
  | inr (suffix, e) ↦
      let all_three : (ends_with suffix host
            && ltb (length suffix) (length host)
            && byte_is (get_elem? host (length host - length suffix - 1)) b'.')
          ≡ true =
        rw e at h in
      let (both, dot) = &&_eq_true _ _ all_three in
      let (ends, shorter) = &&_eq_true _ _ both in
      let (label, split) = ends_with-split host suffix b'.' ends shorter dot in
      IsNamed.below label suffix (strip_prefix-eq (lit "*.") pattern suffix e) split
]

any-IsListed :
    (patterns : List Str) (host : Str)
    → any (λ p. pattern_allows (strip_prefix (lit "*.") p) p host) patterns ≡ true
    → IsListed patterns host
any-IsListed [] host h = cc
any-IsListed (p ∷ ps) host h =
    elim (Bool-cases (pattern_allows (strip_prefix (lit "*.") p) p host)) [
      | inl here ↦ inl (pattern_allows-IsNamed p host here)
      | inr there ↦ inr (any-IsListed ps host (rw there at h))
    ]

-- A host that is allowed is one of the names, or lies below one of the wildcards.
pub host_allowed-IsListed :
    (capability : HttpCapability) (host : Str)
    → host_allowed capability host ≡ true
    → IsListed capability.allowed_hosts host
unfolding host_allowed
host_allowed-IsListed capability host h = any-IsListed capability.allowed_hosts host h
