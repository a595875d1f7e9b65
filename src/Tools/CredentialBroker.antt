-- ===== src/Tools/CredentialBroker.antt =====
-- tools/credential_broker.rs: what a credential may be used for, and its injection into a request.
-- The store, its clock and the URLs are parameters; recording the usage is fire-and-forget and left
-- out.
pub mod Scope
pub mod Injection
use cherub.Base.{
  ℕ, ◌+◌, ◌-◌, Bool, true, false, not, ◌&&◌, ◌||◌, Option, none, some, List, [], ◌∷◌, ◌++◌, map,
  if◌then◌else◌, is_empty, length, get_elem?, drop, any, ltb, leb, ◌==◌,
}
use cherub.Base.Bytes.{Str, lit, str_eq, strip_prefix}
use cherub.Base.Result.{Result, ok, err, ◌>>=◌}
use cherub.Providers.{CherubError, credential}
use cherub.Tools.LeakDetector.{Secret, register}

-- `str::to_lowercase` and `to_uppercase`, on the ASCII letters: HTTP methods have no others.
abbrev pub to_lowercase : Str → Str
to_lowercase s = map (λ b. if leb 65 b && leb b 90 then b + 32 else b) s

abbrev to_uppercase : Str → Str
to_uppercase s = map (λ b. if leb 97 b && leb b 122 then b - 32 else b) s

unfoldable pub method_to_capability : Str → Str
method_to_capability method =
    let m = to_lowercase method in
    if str_eq m (lit "get") || str_eq m (lit "head") || str_eq m (lit "options")
    then lit "read"
    else if str_eq m (lit "post") || str_eq m (lit "put") || str_eq m (lit "patch")
    then lit "write"
    else if str_eq m (lit "delete")
    then lit "delete"
    else lit "write"

-- `s.ends_with(suffix)`.
abbrev pub ends_with : Str → Str → Bool
ends_with suffix s =
    leb (length suffix) (length s) && str_eq (drop (length s - length suffix) s) suffix

-- `bytes[i] == b`, at an index that is in range.
abbrev pub byte_is : Option ℕ → ℕ → Bool
byte_is none b = false
byte_is (some x) b = x == b

unfoldable pub host_matches : Str → Str → Bool
host_matches host pattern =
    if str_eq pattern (lit "*") then true else elim (strip_prefix (lit "*.") pattern) [
      | some suffix ↦
          ends_with suffix host
          && ltb (length suffix) (length host)
          && byte_is (get_elem? host (length host - length suffix - 1)) b'.'
      | none ↦ str_eq host pattern
    ]

-- storage/credential_types.rs: where a credential is put.
pub data CredentialLocation : Type 0 where
  authorization_bearer : CredentialLocation
  header : Str → Option Str → CredentialLocation
  query_param : Str → CredentialLocation

-- The fields of a stored credential that the broker reads; instants are numbers.
pub record Credential : Type 0 where
  pub expires_at : Option ℕ
  pub host_patterns : List Str
  pub capabilities : List Str
  pub location : CredentialLocation

-- The store and the URL crate. `decrypt` gives the name and the value.
pub record Store : Type 1 where
  pub get : Str → Str → Result CherubError Credential
  pub decrypt : Credential → Result CherubError (Str × Str)
  pub now : ℕ
  pub Url : Type 0
  pub host_str : Url → Option Str
  pub append_pair : Str → Str → Url → Url

module _ (store : Store) where
  open store use {get, decrypt, now, Url, host_str, append_pair}

  pub record InjectionResult : Type 0 where
    pub url : Url
    pub headers : List (Str × Str)
    pub leak_detector : List Secret

  abbrev pub is_expired : Option ℕ → Bool
  is_expired none = false
  is_expired (some expires_at) = ltb expires_at now

  unfoldable pub check_expiration : Str → Credential → Result CherubError Unit
  check_expiration name cred =
      if is_expired cred.expires_at
      then err (credential (lit "credential '" ++ (name ++ lit "' has expired")))
      else ok tt

  -- The host check, for the patterns and the host of the URL.
  unfoldable pub check_host : Str → List Str → Option Str → Result CherubError Unit
  check_host name host_patterns none =
      if is_empty host_patterns then ok tt else err (credential (lit "target URL has no host"))
  check_host name host_patterns (some host) =
      if is_empty host_patterns
      then ok tt
      else if not (any (λ p. host_matches host p) host_patterns)
      then err (
          credential (
            lit "credential '"
            ++ (name ++ (lit "' is not permitted for host '" ++ (host ++ lit "'")))))
      else ok tt

  unfoldable pub check_capability : Str → Str → List Str → Result CherubError Unit
  check_capability name method capabilities =
      let required = method_to_capability method in
      if is_empty capabilities
      then ok tt
      else if not (any (λ c. str_eq c required) capabilities)
      then err (
          credential (
            lit "credential '"
            ++ (name
                ++ (lit "' does not have the '"
                    ++ (required
                        ++ (lit "' capability required for HTTP " ++ to_uppercase method))))))
      else ok tt

  -- `match &cred.location`.
  unfoldable pub place : CredentialLocation → Str → Url → Url × List (Str × Str)
  place authorization_bearer value url = (url, (lit "Authorization", lit "Bearer " ++ value) ∷ [])
  place (header name (some prefix)) value url = (url, (name, prefix ++ (lit " " ++ value)) ∷ [])
  place (header name none) value url = (url, (name, value) ∷ [])
  place (query_param name) value url = (append_pair name value url, [])

  -- What is done once the checks have passed.
  unfoldable pub inject_decrypted : Credential → Url → Str × Str → InjectionResult
  unfolding place
  inject_decrypted cred url (name, value) =
      let (placed, headers) = place cred.location value url in
      record { url = placed; headers = headers; leak_detector = register name value [] }

  -- `CredentialBroker::inject`.
  unfoldable pub inject : Str → Str → Str → Url → Result CherubError InjectionResult
  unfolding check_expiration check_host check_capability inject_decrypted
  inject user_id name method url = get user_id name >>= λ cred. check_expiration name cred >>= λ u.
      check_host name cred.host_patterns (host_str url) >>= λ v.
      check_capability name method cred.capabilities >>= λ w.
      decrypt cred >>= λ decrypted. ok (inject_decrypted cred url decrypted)
