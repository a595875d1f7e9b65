-- ===== src/Tools/Wasm/Host/Bounds.antt =====
-- tools/wasm/host.rs: what a tool can get from the host during one execution.
use cherub.Base.{
  ℕ, ◌+◌, ◌≤◌, ◌<◌, ◌≡◌, refl, ap, ◌∙◌, Bool-cases, inl, inr, Option, none, some, List, [], ◌∷◌,
  All, length, leb, arith, ◌^◌, ◌%◌,
}
use cherub.Base.Bytes.{Str}
use cherub.Base.Result.{Result, ok, err}
use cherub.Tools.Wasm.Capabilities.{Capabilities, HttpCapability, host_allowed}
use cherub.Tools.Wasm.Capabilities.Hosts.{IsListed, host_allowed-IsListed}
use cherub.Tools.Wasm.Host.{HostState, new, Refusal, check_with, check_http_request}

-- The hosts of the requests that are let through, of those that a tool asks for.
abbrev pub accepted : Result Refusal Unit → Str → List Str → List Str
accepted (ok _) host hosts = host ∷ hosts
accepted (err e) host hosts = hosts

abbrev pub request_all : List Str → HostState → List Str
request_all [] s = []
request_all (host ∷ hosts) s =
    accepted (check_http_request host s).0 host (request_all hosts (check_http_request host s).1)

-- The requests are few enough, and all to hosts that the capability lists; without it there are
-- none.
abbrev pub IsWithinCapability : Option HttpCapability → ℕ → List Str → Type 0
IsWithinCapability none used hosts = hosts ≡ []
IsWithinCapability (some cap) used hosts =
    (used + length hosts ≤ cap.max_requests) × All (λ host. IsListed cap.allowed_hosts host) hosts

-- The capability's limit is a u32.
abbrev pub IsU32Limit : Option HttpCapability → Type 0
IsU32Limit none = Unit
IsU32Limit (some cap) = cap.max_requests < 2 ^ 32

-- The count that the state has used of the limit.
abbrev IsUsed : Option HttpCapability → ℕ → Type 0
IsUsed none used = Unit
IsUsed (some cap) used = used ≤ cap.max_requests

check_with-capabilities :
    (cap : Option HttpCapability) (host : Str) (s : HostState)
    → (check_with cap host s).1.capabilities ≡ s.capabilities
unfolding check_with
check_with-capabilities none host s = refl
check_with-capabilities (some cap) host s = elim (Bool-cases (host_allowed cap host)) [
  | inr other ↦ rw other refl
  | inl allowed ↦ elim (Bool-cases (leb cap.max_requests s.http_request_count)) [
    | inl full ↦ rw (allowed, full) refl
    | inr free ↦ rw (allowed, free) refl
  ]
]

check_with-step :
    (cap : Option HttpCapability) (host : Str) (hosts : List Str) (s : HostState)
    → IsU32Limit cap
    → IsUsed cap s.http_request_count
    → (IsUsed cap (check_with cap host s).1.http_request_count
        → IsWithinCapability cap (check_with cap host s).1.http_request_count hosts)
    → IsWithinCapability cap s.http_request_count (accepted (check_with cap host s).0 host hosts)
unfolding check_with
check_with-step none host hosts s small used h = h tt
check_with-step (some cap) host hosts s small used h = elim (Bool-cases (host_allowed cap host)) [
  | inr other ↦ rw other (let h' = rw other at h in h' used)
  | inl allowed ↦ elim (Bool-cases (leb cap.max_requests s.http_request_count)) [
    | inl full ↦ rw (allowed, full) (let h' = rw (allowed, full) at h in h' used)
    | inr free ↦
        let exact : (s.http_request_count + 1) % 2 ^ 32 ≡ s.http_request_count + 1 = ground arith in
        let h' = rw (allowed, free, exact) at h in
        let (few, granted) = h' (ground arith) in
        rw (allowed, free) (omega (arith, few), (host_allowed-IsListed cap host allowed, granted))
  ]
]

request_all-IsWithin_by :
    (capability : Option HttpCapability) (hosts : List Str) (s : HostState)
    → s.capabilities.http ≡ capability
    → IsU32Limit capability
    → IsUsed capability s.http_request_count
    → IsWithinCapability capability s.http_request_count (request_all hosts s)
unfolding check_http_request
request_all-IsWithin_by none [] s e small used = refl
request_all-IsWithin_by (some granted) [] s e small used = (omega (arith, used), tt)
request_all-IsWithin_by capability (host ∷ hosts) s e small used = simp e (
    check_with-step capability host (request_all hosts (check_with capability host s).1) s small
      used
      (λ used'.
        request_all-IsWithin_by capability hosts (check_with capability host s).1
          (ap (λ c. c.http) (check_with-capabilities capability host s) ∙ e) small used'))

zero-IsUsed : (capability : Option HttpCapability) → IsUsed capability 0
zero-IsUsed none = tt
zero-IsUsed (some granted) = ground arith

-- Whatever hosts a tool asks for in one execution, if the limit of its capability is a u32: the
-- requests that are let through are at most as many as the limit, and each is to a host that is in
-- the capability's list or lies below a wildcard of it; without the capability there are none.
pub request_all-IsWithinCapability :
    (capabilities : Capabilities) (hosts : List Str)
    → IsU32Limit capabilities.http
    → IsWithinCapability capabilities.http 0 (request_all hosts (new capabilities))
unfolding new
request_all-IsWithinCapability capabilities hosts small =
    request_all-IsWithin_by capabilities.http hosts (new capabilities) refl small
      (zero-IsUsed capabilities.http)
