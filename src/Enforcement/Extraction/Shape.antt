-- ===== src/Enforcement/Extraction/Shape.antt =====
-- enforcement/extraction.rs: what an extraction returns, for each source.
use cherub.Base.{
  ℕ, Bool, true, not, ◌≡◌, ◌≢◌, refl, none, some, List, [], ◌∷◌, ◌++◌, ◌&&◌, is_empty, >>=-eq-some,
  arith, Bool-cases, inl, inr, all, ◌==◌,
}
use cherub.Base.Bytes.{Str, lit, before, split_once_after}
use cherub.Json.{Value}
use cherub.Enforcement.Policy.{MatchSource, command, structured, http_structured, mcp_structured}
use cherub.Enforcement.Shell.{parse_commands}
use cherub.Enforcement.Extraction.{extract_url_host, field, extract}

-- No list of actions that is returned is empty.
pub extract-ne_nil :
    {N : Type 0} (source : MatchSource) (params : Value N) (actions : List Str)
    → extract source params ≡ some actions
    → actions ≢ []
unfolding extract
extract-ne_nil command params actions e q =
    let (text, _, e1) = >>=-eq-some (field params (lit "command")) _ e in
    let (subs, _, e2) = >>=-eq-some (parse_commands text) _ e1 in
    elim (Bool-cases (is_empty subs)) [
      | inl h ↦ cc (let e3 : none ≡ some actions = rw h at e2 in e3)
      | inr h ↦ let same : some subs ≡ some actions = rw h at e2 in ground arith
    ]
extract-ne_nil structured params actions e q =
    let (_, _, e1) = >>=-eq-some (field params (lit "action")) _ e in cc
extract-ne_nil http_structured params actions e q =
    let (_, _, e1) = >>=-eq-some (field params (lit "action")) _ e in
    let (url, _, e2) = >>=-eq-some (field params (lit "url")) _ e1 in
    let (_, _, e3) = >>=-eq-some (extract_url_host url) _ e2 in cc
extract-ne_nil mcp_structured params actions e q =
    let (_, _, e1) = >>=-eq-some (field params (lit "__mcp_server")) _ e in
    let (_, _, e2) = >>=-eq-some (field params (lit "__mcp_tool")) _ e1 in cc

-- A byte that ends the host of a URL.
abbrev pub is_host_byte : ℕ → Bool
is_host_byte b = not (b == b'/') && not (b == b':')

before-host :
    (c : ℕ) (host rest : Str)
    → all (λ b. not (b == c)) host ≡ true
    → before c (host ++ (c ∷ rest)) ≡ host
unfolding before
before-host c [] rest h = ground arith
before-host c (b ∷ host) rest h = ground (arith, before-host c host rest)

before-all : (c : ℕ) (s : Str) → all (λ b. not (b == c)) s ≡ true → before c s ≡ s
unfolding before
before-all c [] h = refl
before-all c (b ∷ s) h = ground (arith, before-all c s)

all-before : (c : ℕ) (s : Str) → all (λ b. not (b == c)) (before c s) ≡ true
unfolding before
all-before c [] = refl
all-before c (b ∷ s) = ground (arith, all-before c s)

all-before_of_all : (p : ℕ → Bool) (c : ℕ) (s : Str) → all p s ≡ true → all p (before c s) ≡ true
unfolding before
all-before_of_all p c [] h = refl
all-before_of_all p c (b ∷ s) h = ground (arith, all-before_of_all p c s)

all_host_byte :
    (s : Str)
    → all (λ b. not (b == b'/')) s ≡ true
    → all (λ b. not (b == b':')) s ≡ true
    → all is_host_byte s ≡ true
all_host_byte [] h k = refl
all_host_byte (b ∷ s) h k = ground (arith, all_host_byte s)

-- The host that a URL is matched by is not empty, and has no colon and no slash.
pub extract_url_host-IsHost :
    (url host : Str)
    → extract_url_host url ≡ some host
    → (host ≢ []) × (all is_host_byte host ≡ true)
unfolding extract_url_host
extract_url_host-IsHost url host e =
    let (after, _, e1) = >>=-eq-some (split_once_after (lit "://") url) _ e in
    let found = before b':' (before b'/' after) in
    elim (Bool-cases (is_empty found)) [
      | inl h ↦ cc (let e2 : none ≡ some host = rw h at e1 in e2)
      | inr h ↦
          let e2 : some found ≡ some host = rw h at e1 in
          let same : found ≡ host = cc in
          let nonempty : host ≢ [] = λ q. ground arith in
          (
            nonempty,
            rw (← same) (
                all_host_byte found
                  (all-before_of_all (λ b. not (b == b'/')) b':' (before b'/' after)
                    (all-before b'/' after))
                  (all-before b':' (before b'/' after))),
          )
    ]
