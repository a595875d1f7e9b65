-- ===== src/Enforcement/Policy/Compile.antt =====
-- enforcement/policy.rs, the compilation of a policy file: constraints, actions, tools, budget.
use cherub.Base.{Option, none, some, List, [], ◌∷◌, if◌then◌else◌, is_empty}
use cherub.Base.Bytes.{Str}
use cherub.Base.Result.{Result, ok, err, ok_or, try_map, ◌>>=◌}
use cherub.Crates.{Crates}
use cherub.Json.{Value, as_str, as_array}
use cherub.Enforcement.Tier.{tier_le}
use cherub.Enforcement.Policy
use cherub.Enforcement.Policy.{
  OnConstraintFailure, reject, escalate, ConstraintOp, Predicate, ConstraintConfig, ActionConfig,
  ToolConfig, BudgetConfig, PolicyFile, CompiledConstraint, CompiledAction, CompiledTool,
  CompiledBudget, value_as_f64,
}

-- What a `CherubError::PolicyValidation` complains of; its message text is for the user only.
pub data PolicyError : Type 0 where
  needs_number needs_string needs_array needs_strings invalid_regex : PolicyError
  empty_patterns invalid_pattern_set : PolicyError

module _ (c : Crates) where
  open c use {Number, build_regex, build_regex_set}

  -- The predicate of a constraint, by its operator.
  compile_predicate : ConstraintOp → Value Number → Result PolicyError (Predicate c)
  unfolding try_map
  compile_predicate ConstraintOp.eq value = ok (Predicate.eq value)
  compile_predicate ConstraintOp.lt value = do
    n ← ok_or needs_number (value_as_f64 c value)
    ok (Predicate.lt n)
  compile_predicate ConstraintOp.gt value = do
    n ← ok_or needs_number (value_as_f64 c value)
    ok (Predicate.gt n)
  compile_predicate ConstraintOp.contains value = do
    s ← ok_or needs_string (as_str value)
    ok (Predicate.contains s)
  compile_predicate ConstraintOp.not_contains value = do
    s ← ok_or needs_string (as_str value)
    ok (Predicate.not_contains s)
  compile_predicate ConstraintOp.one_of value = do
    arr ← ok_or needs_array (as_array value)
    ok (Predicate.one_of arr)
  compile_predicate ConstraintOp.contains_all value = do
    arr ← ok_or needs_array (as_array value)
    strings ← try_map (λ v. ok_or needs_strings (as_str v)) arr
    ok (Predicate.contains_all strings)
  compile_predicate ConstraintOp.matches value = do
    pattern_text ← ok_or needs_string (as_str value)
    regex ← ok_or invalid_regex (build_regex pattern_text)
    ok (Predicate.matches regex)

  unfoldable pub compile_constraint : ConstraintConfig c → Result PolicyError (CompiledConstraint c)
  unfolding compile_predicate
  compile_constraint config = do
    predicate ← compile_predicate config.op config.value
    ok (record { field = config.field; predicate = predicate })

  or_reject : Option OnConstraintFailure → OnConstraintFailure
  or_reject none = reject
  or_reject (some f) = f

  -- The closure that `compile_tool` maps over the actions.
  unfoldable pub compile_action : Str × ActionConfig c → Result PolicyError (CompiledAction c)
  unfolding try_map compile_constraint or_reject
  compile_action (action_name, action) = if is_empty action.patterns then err empty_patterns else do
    patterns ← ok_or invalid_pattern_set (build_regex_set action.patterns)
    constraints ← try_map compile_constraint action.constraints
    ok (record {
      name = action_name;
      tier = action.tier;
      patterns = patterns;
      constraints = constraints;
      on_constraint_failure = or_reject action.on_constraint_failure;
    })

  -- `actions.sort_by(|a, b| b.tier.cmp(&a.tier))`: a stable sort, as an insertion sort.
  unfoldable pub insert_action :
      CompiledAction c → List (CompiledAction c) → List (CompiledAction c)
  insert_action a [] = a ∷ []
  insert_action a (b ∷ bs) = if tier_le b.tier a.tier then a ∷ b ∷ bs else b ∷ insert_action a bs

  unfoldable pub sort_actions : List (CompiledAction c) → List (CompiledAction c)
  unfolding insert_action
  sort_actions [] = []
  sort_actions (a ∷ rest) = insert_action a (sort_actions rest)

  unfoldable pub compile_tool : Str × ToolConfig c → Result PolicyError (CompiledTool c)
  unfolding try_map compile_constraint compile_action sort_actions
  compile_tool (name, config) = do
    tool_constraints ← try_map compile_constraint config.constraints
    actions ← try_map compile_action config.actions
    ok (record {
      name = name;
      enabled = config.enabled;
      match_source = config.match_source;
      actions = sort_actions actions;
      constraints = tool_constraints;
    })

  abbrev compile_budget : Option (BudgetConfig c) → Option (CompiledBudget c)
  compile_budget none = none
  compile_budget (some b) = some (record {
    session_limit_usd = b.session_limit_usd;
    daily_limit_usd = b.daily_limit_usd;
    on_exceeded = b.on_exceeded;
  })

  -- `Policy::from_str`, from the file that `toml::from_str` has read.
  unfoldable pub compile_policy : PolicyFile c → Result PolicyError (Policy.Policy c)
  unfolding try_map compile_tool
  compile_policy file = do
    tools ← try_map compile_tool file.tools
    ok (record { tools = tools; budget = compile_budget file.budget })
