-- ===== src/Enforcement/Evaluate/Limits.antt =====
-- enforcement/mod.rs, `evaluate` with a budget: the limits on what a session and a day may cost.
use cherub.Base.{
  ◌≡◌, refl, inl, inr, true, ◌||◌, Bool-cases, Option-cases, Option, none, some, arith,
}
use cherub.Crates.{Crates}
use cherub.Enforcement.Tier.{commit}
use cherub.Enforcement.Policy
use cherub.Enforcement.Policy.{
  OnConstraintFailure, CompiledAction, CompiledTool, CompiledBudget, find_tool, check_constraints,
  match_action,
}
use cherub.Enforcement.Decision.{Decision, reject, escalate}
use cherub.Enforcement.Evaluate.{
  ToolInvocation, proposed, BudgetContext, exceeded, on_failure, check_budget, decide_tool,
  budget_decision, decide, evaluate,
}

module _ (c : Crates) where
  open c use {F64, f64_le}

  -- What reaches a limit: the cost of the session or that of the day, if it is configured.
  pub data IsSpent (budget : CompiledBudget c) (ctx : BudgetContext c) : Type 0 where
    session :
        (limit : F64)
        → budget.session_limit_usd ≡ some limit
        → f64_le limit ctx.session_cost_usd ≡ true
        → IsSpent budget ctx
    daily :
        (limit : F64)
        → budget.daily_limit_usd ≡ some limit
        → f64_le limit ctx.daily_cost_usd ≡ true
        → IsSpent budget ctx

  -- The decision on a spent budget, by its configuration.
  pub data IsRefusal : OnConstraintFailure → Decision → Type 0 where
    rejected : IsRefusal OnConstraintFailure.reject reject
    escalated : IsRefusal OnConstraintFailure.escalate (escalate commit)

  -- What the budget does to a decision: it refuses it, or leaves it as it is.
  pub data IsBudgeted (configured : Option (CompiledBudget c)) (ctx : BudgetContext c)
      (free : Decision) : Decision → Type 0 where
    refused :
        (budget : CompiledBudget c) (decision : Decision)
        → configured ≡ some budget
        → IsSpent budget ctx
        → IsRefusal budget.on_exceeded decision
        → IsBudgeted configured ctx free decision
    within :
        (budget : CompiledBudget c)
        → configured ≡ some budget
        → ¬ (IsSpent budget ctx)
        → IsBudgeted configured ctx free free
    unlimited : configured ≡ none → IsBudgeted configured ctx free free

  exceeded-eq_true :
      (limit : Option F64) (cost : F64)
      → exceeded c limit cost ≡ true
      → (l : F64) × (limit ≡ some l) × (f64_le l cost ≡ true)
  exceeded-eq_true none cost h = cc
  exceeded-eq_true (some l) cost h = (l, refl, h)

  exceeded-IsSpent :
      (budget : CompiledBudget c) (ctx : BudgetContext c)
      → (exceeded c budget.session_limit_usd ctx.session_cost_usd
          || exceeded c budget.daily_limit_usd ctx.daily_cost_usd)
        ≡ true
      → IsSpent budget ctx
  exceeded-IsSpent budget ctx h =
      elim (Bool-cases (exceeded c budget.session_limit_usd ctx.session_cost_usd)) [
        | inl over ↦
            let (l, e, over') =
              exceeded-eq_true budget.session_limit_usd ctx.session_cost_usd over in
            session l e over'
        | inr under ↦
            let (l, e, over') =
              exceeded-eq_true budget.daily_limit_usd ctx.daily_cost_usd (rw under at h) in
            daily l e over'
      ]

  IsSpent-exceeded :
      (budget : CompiledBudget c) (ctx : BudgetContext c)
      → IsSpent budget ctx
      → (exceeded c budget.session_limit_usd ctx.session_cost_usd
          || exceeded c budget.daily_limit_usd ctx.daily_cost_usd)
        ≡ true
  IsSpent-exceeded budget ctx (session l e over) = rw (e, over) refl
  IsSpent-exceeded budget ctx (daily l e over) = rw (e, over) (ground arith)

  on_failure-IsRefusal : (how : OnConstraintFailure) → IsRefusal how (on_failure c how commit)
  on_failure-IsRefusal OnConstraintFailure.reject = rejected
  on_failure-IsRefusal OnConstraintFailure.escalate = escalated

  -- The decision of the budget, if there is one, comes before the free one.
  abbrev decision_or : Option Decision → Decision → Decision
  decision_or none free = free
  decision_or (some decision) free = decision

  budget_decision-IsBudgeted :
      (configured : Option (CompiledBudget c)) (ctx : BudgetContext c) (free : Decision)
      → IsBudgeted configured ctx free (decision_or (budget_decision c configured (some ctx)) free)
  unfolding budget_decision check_budget
  budget_decision-IsBudgeted none ctx free = unlimited refl
  budget_decision-IsBudgeted (some budget) ctx free =
      elim (Bool-cases (
        exceeded c budget.session_limit_usd ctx.session_cost_usd
        || exceeded c budget.daily_limit_usd ctx.daily_cost_usd)) [
          | inl over ↦ rw over (
              refused budget (on_failure c budget.on_exceeded commit) refl
                (exceeded-IsSpent budget ctx over) (on_failure-IsRefusal budget.on_exceeded))
          | inr under ↦
              rw under
                (within budget refl (λ spent. let over = IsSpent-exceeded budget ctx spent in cc))
        ]

  decide-decision_or :
      (proposal : ToolInvocation c proposed) (policy : Policy.Policy c)
      (budget : Option (BudgetContext c))
      → decide c proposal policy budget
        ≡ decision_or
            (budget_decision c policy.budget budget)
            (decide_tool c (find_tool c policy proposal.tool) proposal.params)
  unfolding decide decide_tool
  decide-decision_or proposal policy budget =
      elim (Option-cases (budget_decision c policy.budget budget)) [
        | inl e ↦ rw (e, decide)
        | inr (d, e) ↦ rw (e, decide)
      ]

  decide-none :
      (proposal : ToolInvocation c proposed) (policy : Policy.Policy c)
      → decide c proposal policy none
        ≡ decide_tool c (find_tool c policy proposal.tool) proposal.params
  unfolding decide budget_decision
  decide-none proposal policy = refl

  -- With a context of costs: if the policy has a budget and the cost of the session or of the day
  -- reaches its limit, the decision is the budget's, a rejection or an escalation at the commit tier
  -- as it is configured, whatever the tool is. Otherwise it is the decision without a context.
  pub evaluate-IsBudgeted :
      (proposal : ToolInvocation c proposed) (policy : Policy.Policy c) (ctx : BudgetContext c)
      → IsBudgeted policy.budget ctx
          (evaluate c proposal policy none).1
          (evaluate c proposal policy (some ctx)).1
  unfolding evaluate
  evaluate-IsBudgeted proposal policy ctx =
      rw (decide-none proposal policy, decide-decision_or proposal policy (some ctx))
        (budget_decision-IsBudgeted policy.budget ctx
          (decide_tool c (find_tool c policy proposal.tool) proposal.params))
