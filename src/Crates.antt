-- ===== src/Crates.antt =====
-- What the program takes from crates whose code is not in the repository: JSON numbers and floats
-- (serde_json, f64), regular expressions (regex), as one interface of types and operations. The
-- operations are parameters of every definition that calls them.
use cherub.Base.{Bool, Option, List}
use cherub.Base.Bytes.{Str}

pub record Crates : Type 1 where
  -- `serde_json::Number`, its `==`, its `Display`, and `as_f64` and `as_u64` of a number.
  pub Number : Type 0
  pub number_eq : Number → Number → Bool
  pub F64 : Type 0
  pub as_f64 : Number → Option F64
  -- The comparisons `<` and `<=` of f64 (`>` and `>=` are these with the sides exchanged).
  pub f64_lt : F64 → F64 → Bool
  pub f64_le : F64 → F64 → Bool
  -- `regex::Regex` and `regex::RegexSet`, built with the program's size and nesting limits.
  pub Regex : Type 0
  pub build_regex : Str → Option Regex
  pub regex_is_match : Regex → Str → Bool
  pub RegexSet : Type 0
  pub build_regex_set : List Str → Option RegexSet
  pub regex_set_is_match : RegexSet → Str → Bool
