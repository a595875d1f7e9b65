-- ===== src/Enforcement/Policy.antt =====
-- enforcement/policy.rs: the policy as it is configured and as it is compiled, the evaluation of
-- constraints, and the search for the action that a command matches.
pub mod Compile
pub mod Order
use cherub.Base.{
  ℕ, Bool, true, false, not, ◌≡◌, Option, none, some, List, [], ◌∷◌, ◌&&◌, all, any, find,
  if◌then◌else◌,
}
use cherub.Base.Bytes
use cherub.Base.Bytes.{Str, str_eq}
use cherub.Crates.{Crates}
use cherub.Json.{
  Value, null, bool, number, string, array, object, get, as_str, as_array, to_list, value_eq,
}
use cherub.Enforcement.Tier.{Tier}

pub data MatchSource : Type 0 where
  command structured http_structured mcp_structured : MatchSource

pub data OnConstraintFailure : Type 0 where
  reject escalate : OnConstraintFailure

pub data ConstraintOp : Type 0 where
  eq lt gt contains not_contains one_of contains_all matches : ConstraintOp

module _ (c : Crates) where
  open c use {
    Number, number_eq, F64, as_f64, f64_lt, Regex, regex_is_match, RegexSet, regex_set_is_match,
  }

  -- The policy file as serde has read it.
  pub record ConstraintConfig : Type 0 where
    pub field : Str
    pub op : ConstraintOp
    pub value : Value Number

  pub record ActionConfig : Type 0 where
    pub tier : Tier
    pub patterns : List Str
    pub constraints : List ConstraintConfig
    pub on_constraint_failure : Option OnConstraintFailure

  pub record ToolConfig : Type 0 where
    pub enabled : Bool
    pub match_source : MatchSource
    pub actions : List (Str × ActionConfig)
    pub constraints : List ConstraintConfig

  pub record BudgetConfig : Type 0 where
    pub session_limit_usd : Option F64
    pub daily_limit_usd : Option F64
    pub on_exceeded : OnConstraintFailure

  -- The entries of a HashMap are listed in the order in which it is iterated.
  pub record PolicyFile : Type 0 where
    pub tools : List (Str × ToolConfig)
    pub budget : Option BudgetConfig

  pub data Predicate : Type 0 where
    eq : Value Number → Predicate
    lt : F64 → Predicate
    gt : F64 → Predicate
    contains : Str → Predicate
    not_contains : Str → Predicate
    one_of : List (Value Number) → Predicate
    contains_all : List Str → Predicate
    matches : Regex → Predicate

  pub record CompiledConstraint : Type 0 where
    pub field : Str
    pub predicate : Predicate

  pub record CompiledAction : Type 0 where
    pub name : Str
    pub tier : Tier
    pub patterns : RegexSet
    pub constraints : List CompiledConstraint
    pub on_constraint_failure : OnConstraintFailure

  pub record CompiledTool : Type 0 where
    pub name : Str
    pub enabled : Bool
    pub match_source : MatchSource
    pub actions : List CompiledAction
    pub constraints : List CompiledConstraint

  pub record CompiledBudget : Type 0 where
    pub session_limit_usd : Option F64
    pub daily_limit_usd : Option F64
    pub on_exceeded : OnConstraintFailure

  pub record Policy : Type 0 where
    pub tools : List CompiledTool
    pub budget : Option CompiledBudget

  -- `value.as_f64()`.
  abbrev pub value_as_f64 : Value Number → Option F64
  value_as_f64 (number n) = as_f64 n
  value_as_f64 null = none
  value_as_f64 _ = none

  -- `option.is_some_and(p)`.
  abbrev is_some_and : {A : Type 0} → (A → Bool) → Option A → Bool
  is_some_and p none = false
  is_some_and p (some a) = p a

  -- `arr.iter().any(|v| v.as_str().is_some_and(|s| s == needle))`.
  unfoldable pub array_has : List (Value Number) → Str → Bool
  array_has arr needle = any (λ v. is_some_and (λ s. str_eq s needle) (as_str v)) arr

  unfoldable pub evaluate_contains : Str → Value Number → Bool
  unfolding array_has
  evaluate_contains needle (string s) = Bytes.contains needle s
  evaluate_contains needle (array vs) = array_has (to_list vs) needle
  evaluate_contains needle null = false
  evaluate_contains needle _ = false

  evaluate_not_contains : Str → Value Number → Bool
  unfolding array_has
  evaluate_not_contains needle (string s) = not (Bytes.contains needle s)
  evaluate_not_contains needle (array vs) = not (array_has (to_list vs) needle)
  evaluate_not_contains needle null = false
  evaluate_not_contains needle _ = false

  evaluate_contains_all : List Str → Value Number → Bool
  unfolding array_has
  evaluate_contains_all required (string s) = all (λ r. Bytes.contains r s) required
  evaluate_contains_all required (array vs) = all (λ r. array_has (to_list vs) r) required
  evaluate_contains_all required null = false
  evaluate_contains_all required _ = false

  -- `Predicate::evaluate`.
  unfoldable pub evaluate_predicate : Predicate → Value Number → Bool
  unfolding evaluate_contains evaluate_not_contains evaluate_contains_all
  evaluate_predicate (eq expected) value = value_eq number_eq value expected
  evaluate_predicate (lt bound) value = is_some_and (λ v. f64_lt v bound) (value_as_f64 value)
  evaluate_predicate (gt bound) value = is_some_and (λ v. f64_lt bound v) (value_as_f64 value)
  evaluate_predicate (contains needle) value = evaluate_contains needle value
  evaluate_predicate (not_contains needle) value = evaluate_not_contains needle value
  evaluate_predicate (one_of allowed) value = any (λ a. value_eq number_eq a value) allowed
  evaluate_predicate (contains_all required) value = evaluate_contains_all required value
  evaluate_predicate (matches regex) value =
      is_some_and (λ s. regex_is_match regex s) (as_str value)

  -- `CompiledConstraint::evaluate`: a missing field fails.
  unfoldable pub evaluate_constraint : CompiledConstraint → Value Number → Bool
  unfolding evaluate_predicate
  evaluate_constraint k params = is_some_and (evaluate_predicate k.predicate) (get params k.field)

  -- `check_constraints` of a tool and of an action: all must hold.
  unfoldable pub check_constraints : List CompiledConstraint → Value Number → Bool
  check_constraints constraints params = all (λ k. evaluate_constraint k params) constraints

  -- `CompiledTool::match_action`: the first action with a pattern that matches.
  unfoldable pub match_action : CompiledTool → Str → Option CompiledAction
  match_action tool text = find (λ a. regex_set_is_match a.patterns text) tool.actions

  -- `Policy::find_tool`.
  unfoldable pub find_tool : Policy → Str → Option CompiledTool
  find_tool policy name = find (λ t. str_eq t.name name) policy.tools
