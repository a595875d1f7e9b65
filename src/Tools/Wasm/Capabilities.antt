-- ===== src/Tools/Wasm/Capabilities.antt =====
-- tools/wasm/capabilities.rs: the capabilities of a tool.
pub mod Hosts
use cherub.Base.{
  ℕ, ◌-◌, Bool, true, false, Option, none, some, List, [], ◌∷◌, ◌++◌, ◌&&◌, if◌then◌else◌, is_empty,
  any, ltb, length, get_elem?,
}
use mathlib.Core.List.{reverse}
use cherub.Base.Bytes.{Str, lit, str_eq, starts_with, strip_prefix}
use cherub.Tools.CredentialBroker.{ends_with, byte_is}

pub record WorkspaceCapability : Type 0 where
  pub allowed_prefixes : List Str

-- The count is a u32.
pub record HttpCapability : Type 0 where
  pub allowed_hosts : List Str
  pub credentials : List Str
  pub max_requests : ℕ

pub record SecretsCapability : Type 0 where
  pub allowed_names : List Str

pub record Capabilities : Type 0 where
  pub workspace : Option WorkspaceCapability
  pub http : Option HttpCapability
  pub secrets : Option SecretsCapability

unfoldable pub path_allowed : WorkspaceCapability → Str → Bool
path_allowed cap path =
    if is_empty cap.allowed_prefixes
    then true
    else any (λ prefix. starts_with prefix path) cap.allowed_prefixes

-- The two arms of the closure in `host_allowed`.
abbrev pub pattern_allows : Option Str → Str → Str → Bool
pattern_allows (some suffix) pattern host =
    ends_with suffix host
    && ltb (length suffix) (length host)
    && byte_is (get_elem? host (length host - length suffix - 1)) b'.'
pattern_allows none pattern host = str_eq host pattern

unfoldable pub host_allowed : HttpCapability → Str → Bool
host_allowed cap host =
    any (λ pattern. pattern_allows (strip_prefix (lit "*.") pattern) pattern host) cap.allowed_hosts

-- The two arms of the closure in `is_allowed`, from the pattern without its star.
abbrev pub name_allows : Option Str → Str → Str → Bool
name_allows (some star) pattern name = starts_with (reverse star) name
name_allows none pattern name = str_eq pattern name

unfoldable pub is_allowed : SecretsCapability → Str → Bool
is_allowed cap name =
    any (λ pattern. name_allows (strip_prefix (lit "*") (reverse pattern)) pattern name)
      cap.allowed_names
