-- ===== src/Enforcement/Evaluate.antt =====
-- enforcement/mod.rs, `evaluate`: the decision on a proposed tool invocation.
pub mod Soundness
pub mod Budget
pub mod Limits
use cherub.Base.{
  Bool, true, false, not, ◌||◌, Option, none, some, List, [], ◌∷◌, map, if◌then◌else◌, is_empty,
}
use cherub.Base.Bytes.{Str}
use cherub.Crates.{Crates}
use cherub.Json.{Value}
use cherub.Enforcement.Tier.{Tier, observe, act, commit, rank}
use cherub.Enforcement.Policy
use cherub.Enforcement.Policy.{
  OnConstraintFailure, CompiledAction, CompiledTool, CompiledBudget, find_tool, check_constraints,
  match_action,
}
use cherub.Enforcement.Decision.{Decision, allow, reject, escalate, combine_decisions}
use cherub.Enforcement.Extraction.{extract}

-- The typestate of `ToolInvocation`.
pub data Stage : Type 0 where
  proposed evaluated : Stage

module _ (c : Crates) where
  open c use {Number, F64, f64_le}

  -- tools/mod.rs: `ToolInvocation<State>`; only an evaluated one can be executed.
  pub record ToolInvocation (s : Stage) : Type 0 where
    pub tool : Str
    pub action : Str
    pub params : Value Number

  -- `ToolInvocation::<Proposed>::transition`.
  unfoldable pub transition : ToolInvocation proposed → ToolInvocation evaluated
  transition p = record { tool = p.tool; action = p.action; params = p.params }

  pub record BudgetContext : Type 0 where
    pub session_cost_usd : F64
    pub daily_cost_usd : F64

  -- `option.is_some_and(|limit| cost >= limit)`.
  abbrev pub exceeded : Option F64 → F64 → Bool
  exceeded none cost = false
  exceeded (some limit) cost = f64_le limit cost

  -- The decision on a failure, at the tier that is given.
  abbrev pub on_failure : OnConstraintFailure → Tier → Decision
  on_failure OnConstraintFailure.reject tier = reject
  on_failure OnConstraintFailure.escalate tier = escalate tier

  unfoldable pub check_budget : BudgetContext → CompiledBudget c → Option Decision
  check_budget ctx budget =
      if exceeded budget.session_limit_usd ctx.session_cost_usd
        || exceeded budget.daily_limit_usd ctx.daily_cost_usd
      then some (on_failure budget.on_exceeded commit)
      else none

  abbrev pub is_commit : Tier → Bool
  is_commit commit = true
  is_commit observe = false
  is_commit act = false

  -- The decision on an action that a command matches.
  unfoldable pub decide_matched : CompiledAction c → Value Number → Decision
  decide_matched matched params =
      if not (check_constraints c matched.constraints params)
      then on_failure matched.on_constraint_failure matched.tier
      else if is_commit matched.tier
      then escalate commit
      else allow (record { tier = matched.tier })

  unfoldable pub evaluate_single_action : Str → CompiledTool c → Value Number → Decision
  unfolding decide_matched
  evaluate_single_action action tool params = elim (match_action c tool action) [
    | none ↦ reject
    | some matched ↦ decide_matched matched params
  ]

  -- What follows the extraction of the actions.
  unfoldable pub decide_actions : CompiledTool c → Value Number → Option (List Str) → Decision
  decide_actions tool params none = reject
  decide_actions tool params (some actions) =
      if is_empty actions
      then reject
      else combine_decisions (map (λ action. evaluate_single_action action tool params) actions)

  unfoldable pub decide_tool : Option (CompiledTool c) → Value Number → Decision
  unfolding decide_actions
  decide_tool none params = reject
  decide_tool (some tool) params =
      if not tool.enabled
      then reject
      else if not (check_constraints c tool.constraints params)
      then reject
      else decide_actions tool params (extract tool.match_source params)

  -- The budget check, where there is a context and a configured budget.
  unfoldable pub budget_decision :
      Option (CompiledBudget c) → Option BudgetContext → Option Decision
  unfolding check_budget
  budget_decision compiled none = none
  budget_decision none (some ctx) = none
  budget_decision (some compiled) (some ctx) = check_budget ctx compiled

  unfoldable pub decide :
      ToolInvocation proposed → Policy.Policy c → Option BudgetContext → Decision
  decide proposal policy budget = elim (budget_decision policy.budget budget) [
    | some decision ↦ decision
    | none ↦ decide_tool (find_tool c policy proposal.tool) proposal.params
  ]

  -- `evaluate`.
  unfoldable pub evaluate :
      ToolInvocation proposed
      → Policy.Policy c
      → Option BudgetContext
      → ToolInvocation evaluated × Decision
  unfolding transition decide
  evaluate proposal policy budget = (transition proposal, decide proposal policy budget)
