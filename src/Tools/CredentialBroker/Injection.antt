-- ===== src/Tools/CredentialBroker/Injection.antt =====
-- tools/credential_broker.rs: when a credential is put into a request, and what is put in.
use cherub.Base.{
  ℕ, ◌≤◌, ◌≡◌, ◌≢◌, refl, sym, ◌⊎◌, inl, inr, Bool-cases, Option, none, some, List, [], ◌∷◌, ◌++◌,
  any, arith, false,
}
use cherub.Base.Bytes.{Str, lit, str_eq, str_eq→eq}
use cherub.Base.Result.{ok, >>=-eq-ok}
use cherub.Tools.LeakDetector.{Secret, register}
use cherub.Tools.CredentialBroker.{
  host_matches, method_to_capability, CredentialLocation, authorization_bearer, header, query_param,
  Credential, Store, InjectionResult, is_expired, check_expiration, check_host, check_capability,
  place, inject_decrypted, inject,
}
use cherub.Tools.CredentialBroker.Scope.{
  IsCoveredBy, any-IsCoveredBy, IsOneOf, any-IsOneOf, IsNeeded, method_to_capability-IsNeeded,
}

-- The detector watches for the value, if there is one.
pub data IsWatched (name value : Str) : List Secret → Type 0 where
  no_value : value ≡ [] → IsWatched name value []
  watched : value ≢ [] → IsWatched name value (record { name = name; value = value } ∷ [])

register-IsWatched : (name value : Str) → IsWatched name value (register name value [])
unfolding register
register-IsWatched name [] = no_value refl
register-IsWatched name (x ∷ value) = watched (λ e. cc)

module _ (store : Store) where
  open store use {get, decrypt, now, Url, host_str, append_pair}

  -- The URL and the headers of a request into which a value is put at a location.
  pub data IsPlaced (value : Str) (url : Url)
      : CredentialLocation → Url → List (Str × Str) → Type 0 where
    as_bearer :
        IsPlaced value url authorization_bearer url
          ((lit "Authorization", lit "Bearer " ++ value) ∷ [])
    as_header : (name : Str) → IsPlaced value url (header name none) url ((name, value) ∷ [])
    with_prefix :
        (name prefix : Str)
        → IsPlaced value url
            (header name (some prefix))
            url
            ((name, prefix ++ (lit " " ++ value)) ∷ [])
    in_query : (name : Str) → IsPlaced value url (query_param name) (append_pair name value url) []

  -- What stands between a request and a credential that is put into it, and what is put in.
  pub record IsInScope (user_id name method : Str) (url : Url) (r : InjectionResult store)
      : Type 0 where
    pub cred : Credential
    pub secret_name : Str
    pub value : Str
    pub capability : Str
    pub stored : get user_id name ≡ ok cred
    pub fresh : (cred.expires_at ≡ none) ⊎ ((t : ℕ) × (cred.expires_at ≡ some t) × (now ≤ t))
    pub host_covered :
        (cred.host_patterns ≡ [])
        ⊎ ((host : Str) × (host_str url ≡ some host) × IsCoveredBy cred.host_patterns host)
    pub needed : IsNeeded method capability
    pub capable : (cred.capabilities ≡ []) ⊎ IsOneOf capability cred.capabilities
    pub decrypted : decrypt cred ≡ ok (secret_name, value)
    pub placed : IsPlaced value url cred.location r.url r.headers
    pub watched : IsWatched secret_name value r.leak_detector

  is_expired-future :
      (expires_at : Option ℕ)
      → is_expired store expires_at ≡ false
      → (expires_at ≡ none) ⊎ ((t : ℕ) × (expires_at ≡ some t) × (now ≤ t))
  is_expired-future none h = inl refl
  is_expired-future (some t) h = inr (t, refl, ground arith)

  check_expiration-ok :
      (name : Str) (cred : Credential) (u : Unit)
      → check_expiration store name cred ≡ ok u
      → (cred.expires_at ≡ none) ⊎ ((t : ℕ) × (cred.expires_at ≡ some t) × (now ≤ t))
  unfolding check_expiration
  check_expiration-ok name cred u h = is_expired-future cred.expires_at (ground arith)

  check_host-ok :
      (name : Str) (patterns : List Str) (host : Option Str) (u : Unit)
      → check_host store name patterns host ≡ ok u
      → (patterns ≡ []) ⊎ ((h : Str) × (host ≡ some h) × IsCoveredBy patterns h)
  unfolding check_host
  check_host-ok name [] host u h = inl refl
  check_host-ok name (p ∷ ps) none u h = cc
  check_host-ok name (p ∷ ps) (some host) u h =
      elim (Bool-cases (any (λ q. host_matches host q) (p ∷ ps))) [
        | inl covered ↦ inr (host, refl, any-IsCoveredBy (p ∷ ps) host covered)
        | inr bare ↦ let failed = rw bare at h in cc
      ]

  check_capability-ok :
      (name method : Str) (capabilities : List Str) (u : Unit)
      → check_capability store name method capabilities ≡ ok u
      → (capabilities ≡ []) ⊎ IsOneOf (method_to_capability method) capabilities
  unfolding check_capability
  check_capability-ok name method [] u h = inl refl
  check_capability-ok name method (c ∷ cs) u h =
      elim (Bool-cases (any (λ d. str_eq d (method_to_capability method)) (c ∷ cs))) [
        | inl capable ↦ inr (
            any-IsOneOf (λ d. str_eq d (method_to_capability method)) (method_to_capability method)
              (c ∷ cs) (λ d e. sym (str_eq→eq d (method_to_capability method) e)) capable)
        | inr unfit ↦ let failed = rw unfit at h in cc
      ]

  place-IsPlaced :
      (location : CredentialLocation) (value : Str) (url : Url)
      → IsPlaced value url location
          (place store location value url).0
          (place store location value url).1
  unfolding place
  place-IsPlaced authorization_bearer value url = as_bearer
  place-IsPlaced (header name (some prefix)) value url = with_prefix name prefix
  place-IsPlaced (header name none) value url = as_header name
  place-IsPlaced (query_param name) value url = in_query name

  inject_decrypted-IsPlaced :
      (cred : Credential) (url : Url) (secret : Str × Str) (r : InjectionResult store)
      → inject_decrypted store cred url secret ≡ r
      → IsPlaced secret.1 url cred.location r.url r.headers
        × IsWatched secret.0 secret.1 r.leak_detector
  unfolding inject_decrypted
  inject_decrypted-IsPlaced cred url secret r e =
      rw (← e) (place-IsPlaced cred.location secret.1 url, register-IsWatched secret.0 secret.1)

  -- A credential is put into a request only if it is stored for the user, has not expired, allows
  -- the host of the URL by one of its patterns (or has none), and has the capability that the HTTP
  -- method needs (or has none). What is put in is its decrypted value, at its location: in a header,
  -- with the URL as it was, or in the query, without a header. The leak detector watches for the
  -- value, if it is not empty.
  pub inject-IsInScope :
      (user_id name method : Str) (url : Url) (r : InjectionResult store)
      → inject store user_id name method url ≡ ok r
      → IsInScope user_id name method url r
  unfolding inject
  inject-IsInScope user_id name method url r h =
      let (cred, stored, h1) = >>=-eq-ok (get user_id name) _ h in
      let (u, fresh, h2) = >>=-eq-ok (check_expiration store name cred) _ h1 in
      let (v, covered, h3) =
        >>=-eq-ok (check_host store name cred.host_patterns (host_str url)) _ h2 in
      let (w, capable, h4) =
        >>=-eq-ok (check_capability store name method cred.capabilities) _ h3 in
      let (secret, decrypted, h5) = >>=-eq-ok (decrypt cred) _ h4 in
      let done = inject_decrypted-IsPlaced cred url secret r cc in
      record {
        cred = cred;
        secret_name = secret.0;
        value = secret.1;
        capability = method_to_capability method;
        stored = stored;
        fresh = check_expiration-ok name cred u fresh;
        host_covered = check_host-ok name cred.host_patterns (host_str url) v covered;
        needed = method_to_capability-IsNeeded method;
        capable = check_capability-ok name method cred.capabilities w capable;
        decrypted = decrypted;
        placed = done.0;
        watched = done.1;
      }
