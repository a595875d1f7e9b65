-- ===== src/Tools/LeakDetector.antt =====
-- tools/leak_detector.rs: replacing the values of credentials in a text.
pub mod Redaction
use cherub.Base.{
  ℕ, zero, suc, ◌-◌, Bool, true, false, List, [], ◌∷◌, ◌++◌, if◌then◌else◌, is_empty, length, any,
}
use cherub.Base.Bytes.{Str, lit, starts_with, contains}

-- `text.replace(from, to)` for a nonempty `from`; the number counts the bytes of an occurrence that
-- are still to be skipped.
unfoldable pub replace_from : Str → Str → ℕ → Str → Str
replace_from from to skip [] = []
replace_from from to (suc skip) (x ∷ xs) = replace_from from to skip xs
replace_from from to zero (x ∷ xs) = elim (starts_with from (x ∷ xs)) [
  | true ↦ to ++ replace_from from to (length from - 1) xs
  | false ↦ x ∷ replace_from from to zero xs
]

-- A name and a value. All values are valid UTF-8, being made of strings.
pub record Secret : Type 0 where
  pub name : Str
  pub value : Str

-- `LeakDetector::register`; the detector is the list of its secrets.
unfoldable pub register : Str → Str → List Secret → List Secret
register name value secrets =
    if is_empty value then secrets else secrets ++ record { name = name; value = value } ∷ []

-- `format!("[REDACTED:{name}]")`.
abbrev pub replacement : Str → Str
replacement name = lit "[REDACTED:" ++ (name ++ lit "]")

-- The body of the loop of `redact`.
unfoldable pub redact_one : Secret → Str → Str
unfolding replace_from
redact_one secret result =
    if is_empty secret.value
    then result
    else if contains secret.value result
    then replace_from secret.value (replacement secret.name) 0 result
    else result

-- `LeakDetector::redact`. The early return for no secrets gives what the loop gives.
unfoldable pub redact : List Secret → Str → Str
unfolding redact_one
redact [] result = result
redact (secret ∷ secrets) result = redact secrets (redact_one secret result)

-- `LeakDetector::contains_secret`.
unfoldable pub contains_secret : List Secret → Str → Bool
contains_secret secrets text = any (λ secret. contains secret.value text) secrets
