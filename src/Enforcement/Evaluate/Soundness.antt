-- ===== src/Enforcement/Evaluate/Soundness.antt =====
-- enforcement/mod.rs: what an invocation that is allowed implies.
use cherub.Base.{
  ◌≤◌, ◌≡◌, ◌≢◌, refl, ap, ◌∙◌, true, Option, none, some, List, [], ◌∷◌, map, All, arith,
  Option-cases, inl, inr,
}
use cherub.Base.Bytes.{Str}
use cherub.Crates.{Crates}
use cherub.Json.{Value}
use cherub.Enforcement.Tier.{commit, rank, CapabilityToken}
use cherub.Enforcement.Policy
use cherub.Enforcement.Policy.{
  CompiledAction, CompiledTool, find_tool, check_constraints, match_action,
}
use cherub.Enforcement.Decision.{allow, reject, combine_decisions}
use cherub.Enforcement.Decision.Laws.{severity, combine_decisions-most_restrictive, severity_allow}
use cherub.Enforcement.Extraction.{extract}
use cherub.Enforcement.Evaluate.{
  ToolInvocation, proposed, BudgetContext, decide_matched, evaluate_single_action, decide_actions,
  decide_tool, budget_decision, decide, evaluate,
}

module _ (c : Crates) where
  open c use {Number}

  -- A command that a tool's policy permits without a human: an action matches it, is no commit,
  -- has its constraints hold, and is within the tier of the token.
  pub record IsPermitted (tool : CompiledTool c) (params : Value Number) (token : CapabilityToken)
      (command : Str) : Type 0 where
    pub matched : CompiledAction c
    pub found : match_action c tool command ≡ some matched
    pub constrained : check_constraints c matched.constraints params ≡ true
    pub not_commit : matched.tier ≢ commit
    pub within : rank matched.tier ≤ rank token.tier

  -- An invocation that is permitted without a human.
  pub record IsAllowed (proposal : ToolInvocation c proposed) (policy : Policy.Policy c)
      (budget : Option (BudgetContext c)) (token : CapabilityToken) : Type 0 where
    pub in_budget : budget_decision c policy.budget budget ≡ none
    pub tool : CompiledTool c
    pub found : find_tool c policy proposal.tool ≡ some tool
    pub enabled : tool.enabled ≡ true
    pub constrained : check_constraints c tool.constraints proposal.params ≡ true
    pub actions : List Str
    pub extracted : extract tool.match_source proposal.params ≡ some actions
    pub some_action : actions ≢ []
    pub permitted : All (IsPermitted tool proposal.params token) actions

  decide_matched-within :
      (matched : CompiledAction c) (params : Value Number) (token : CapabilityToken)
      → severity (decide_matched c matched params) ≤ rank token.tier
      → (check_constraints c matched.constraints params ≡ true)
        × (matched.tier ≢ commit)
        × (rank matched.tier ≤ rank token.tier)
  unfolding decide_matched
  decide_matched-within matched params token h = ground arith

  single-IsPermitted :
      (tool : CompiledTool c) (params : Value Number) (token : CapabilityToken) (command : Str)
      → severity (evaluate_single_action c command tool params) ≤ rank token.tier
      → IsPermitted tool params token command
  unfolding evaluate_single_action
  single-IsPermitted tool params token command h =
      elim (Option-cases (match_action c tool command)) [
        | inl e ↦
            let low : severity reject ≤ rank token.tier = rw (e, evaluate_single_action) at h in
            absurd (omega (arith, severity_allow token))
        | inr (matched, e) ↦
            let low : severity (decide_matched c matched params) ≤ rank token.tier =
              rw (e, evaluate_single_action) at h in
            let (constrained, not_commit, within) =
              decide_matched-within matched params token low in
            record {
              matched = matched;
              found = e;
              constrained = constrained;
              not_commit = not_commit;
              within = within;
            }
      ]

  each-IsPermitted :
      (tool : CompiledTool c) (params : Value Number) (token : CapabilityToken)
      (commands : List Str)
      → All
          (λ d. severity d ≤ rank token.tier)
          (map (λ command. evaluate_single_action c command tool params) commands)
      → All (IsPermitted tool params token) commands
  each-IsPermitted tool params token [] h = tt
  each-IsPermitted tool params token (command ∷ commands) h = (
    single-IsPermitted tool params token command h.0,
    each-IsPermitted tool params token commands h.1,
  )

  combine-IsPermitted :
      (tool : CompiledTool c) (params : Value Number) (token : CapabilityToken)
      (commands : List Str)
      → combine_decisions (map (λ command. evaluate_single_action c command tool params) commands)
        ≡ allow token
      → All (IsPermitted tool params token) commands
  combine-IsPermitted tool params token commands e =
      let decisions = map (λ command. evaluate_single_action c command tool params) commands in
      elim (combine_decisions-most_restrictive decisions) [
        | inl (_, rejected) ↦ cc
        | inr (_, upper) ↦ each-IsPermitted tool params token commands (rw (ap severity e) at upper)
      ]

  decide_actions-allow :
      (tool : CompiledTool c) (params : Value Number) (o : Option (List Str))
      (token : CapabilityToken)
      → decide_actions c tool params o ≡ allow token
      → (actions : List Str) × (o ≡ some actions)
        × (actions ≢ [])
        × All (IsPermitted tool params token) actions
  unfolding decide_actions
  decide_actions-allow tool params none token e = cc
  decide_actions-allow tool params (some []) token e = cc
  decide_actions-allow tool params (some (command ∷ commands)) token e = (
    command ∷ commands,
    refl,
    λ q. cc,
    combine-IsPermitted tool params token (command ∷ commands) e,
  )

  budget_decision-ne_allow :
      (compiled : Option (Policy.CompiledBudget c)) (budget : Option (BudgetContext c))
      (token : CapabilityToken)
      → budget_decision c compiled budget ≢ some (allow token)
  unfolding budget_decision
  budget_decision-ne_allow compiled budget token e = ground arith

  decide_tool-IsAllowed :
      (proposal : ToolInvocation c proposed) (policy : Policy.Policy c)
      (budget : Option (BudgetContext c)) (token : CapabilityToken)
      (found : Option (CompiledTool c))
      → budget_decision c policy.budget budget ≡ none
      → find_tool c policy proposal.tool ≡ found
      → decide_tool c found proposal.params ≡ allow token
      → IsAllowed proposal policy budget token
  unfolding decide_tool
  decide_tool-IsAllowed proposal policy budget token none b f e = cc
  decide_tool-IsAllowed proposal policy budget token (some tool) b f e =
      let on : tool.enabled ≡ true = ground arith in
      let held : check_constraints c tool.constraints proposal.params ≡ true = ground arith in
      let decided : decide_actions c tool proposal.params
            (extract tool.match_source proposal.params)
          ≡ allow token =
        ground arith in
      let (actions, extracted, some_action, permitted) =
        decide_actions-allow tool proposal.params (extract tool.match_source proposal.params) token
          decided in
      record {
        in_budget = b;
        tool = tool;
        found = f;
        enabled = on;
        constrained = held;
        actions = actions;
        extracted = extracted;
        some_action = some_action;
        permitted = permitted;
      }

  -- An invocation is allowed without a human only within the budget, by an enabled tool whose
  -- constraints hold, and if the extraction gives at least one command and each of them is matched
  -- by an action that is no commit, whose constraints hold, and whose tier the token covers.
  pub evaluate-allow :
      (proposal : ToolInvocation c proposed) (policy : Policy.Policy c)
      (budget : Option (BudgetContext c)) (token : CapabilityToken)
      → (evaluate c proposal policy budget).1 ≡ allow token
      → IsAllowed proposal policy budget token
  unfolding evaluate
  evaluate-allow proposal policy budget token e =
      elim (Option-cases (budget_decision c policy.budget budget)) [
        | inl b ↦
            decide_tool-IsAllowed proposal policy budget token (find_tool c policy proposal.tool) b
              refl (rw (b, decide) at e)
        | inr (decision, b) ↦
            let same : decision ≡ allow token = rw (b, decide) at e in
            absurd (budget_decision-ne_allow policy.budget budget token (b ∙ ap some same))
      ]
