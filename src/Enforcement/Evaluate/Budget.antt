-- ===== src/Enforcement/Evaluate/Budget.antt =====
-- enforcement/mod.rs, the other outcomes of `evaluate`: denied by default, permitted.
use mathlib.Core.List.{Mem, mem-map_of_mem}
use cherub.Base.{
  ◌≤◌, ◌≡◌, ◌≢◌, refl, ap, ◌∙◌, true, false, Option, none, some, List, [], ◌∷◌, map, All, arith,
}
use cherub.Base.Bytes.{Str}
use cherub.Crates.{Crates}
use cherub.Json.{Value}
use cherub.Enforcement.Tier.{CapabilityToken}
use cherub.Enforcement.Policy
use cherub.Enforcement.Policy.{
  OnConstraintFailure, CompiledAction, CompiledTool, CompiledBudget, find_tool, check_constraints,
  match_action,
}
use cherub.Enforcement.Decision.{allow, reject}
use cherub.Enforcement.Decision.Laws.{
  severity, combine_decisions-mem_reject, combine_decisions-allow,
}
use cherub.Enforcement.Extraction.{extract}
use cherub.Enforcement.Evaluate.{
  ToolInvocation, proposed, BudgetContext, decide_matched, evaluate_single_action, decide_actions,
  decide_tool, budget_decision, decide, evaluate,
}
use cherub.Enforcement.Evaluate.Soundness.{IsPermitted, IsAllowed}

module _ (c : Crates) where
  open c use {Number, F64, f64_le}

  -- What stands in the way of a decision on the commands.
  pub data IsBarred (policy : Policy.Policy c) (proposal : ToolInvocation c proposed) : Type 0 where
    unknown : find_tool c policy proposal.tool ≡ none → IsBarred policy proposal
    disabled :
        (tool : CompiledTool c)
        → find_tool c policy proposal.tool ≡ some tool
        → tool.enabled ≡ false
        → IsBarred policy proposal
    constrained :
        (tool : CompiledTool c)
        → find_tool c policy proposal.tool ≡ some tool
        → check_constraints c tool.constraints proposal.params ≡ false
        → IsBarred policy proposal
    malformed :
        (tool : CompiledTool c)
        → find_tool c policy proposal.tool ≡ some tool
        → extract tool.match_source proposal.params ≡ none
        → IsBarred policy proposal
    unmatched :
        (tool : CompiledTool c) (actions : List Str) (command : Str)
        → find_tool c policy proposal.tool ≡ some tool
        → extract tool.match_source proposal.params ≡ some actions
        → Mem command actions
        → match_action c tool command ≡ none
        → IsBarred policy proposal

  combine-unmatched :
      (tool : CompiledTool c) (params : Value Number) (actions : List Str) (command : Str)
      → Mem command actions
      → match_action c tool command ≡ none
      → decide_actions c tool params (some actions) ≡ reject
  unfolding decide_actions evaluate_single_action
  combine-unmatched tool params [] command m e = refl
  combine-unmatched tool params (first ∷ others) command m e =
      let rejected : evaluate_single_action c command tool params ≡ reject =
        rw (e, evaluate_single_action) in
      combine_decisions-mem_reject
        (map (λ action. evaluate_single_action c action tool params) (first ∷ others))
        (rw rejected at (mem-map_of_mem (λ action. evaluate_single_action c action tool params) m))

  decide_tool-barred :
      (policy : Policy.Policy c) (proposal : ToolInvocation c proposed)
      → IsBarred policy proposal
      → decide_tool c (find_tool c policy proposal.tool) proposal.params ≡ reject
  unfolding decide_tool
  decide_tool-barred policy proposal (unknown f) = rw f
  decide_tool-barred policy proposal (disabled tool f e) = rw (f, e)
  decide_tool-barred policy proposal (constrained tool f e) = rw f (ground arith)
  decide_tool-barred policy proposal (malformed tool f e) =
      rw (f) (rw e (unfold decide_actions in ground arith))
  decide_tool-barred policy proposal (unmatched tool actions command f e m n) =
      rw (f) (rw e (rw (combine-unmatched tool proposal.params actions command m n) (ground arith)))

  -- Deny by default: within the budget, an invocation of an unknown or a disabled tool, one that
  -- fails a constraint of the tool, one from which no commands can be extracted, and one with a
  -- command that no action matches are rejected.
  pub evaluate-barred :
      (proposal : ToolInvocation c proposed) (policy : Policy.Policy c)
      (budget : Option (BudgetContext c))
      → budget_decision c policy.budget budget ≡ none
      → IsBarred policy proposal
      → (evaluate c proposal policy budget).1 ≡ reject
  unfolding evaluate
  evaluate-barred proposal policy budget b h = rw (b, decide) (decide_tool-barred policy proposal h)

  single-allow :
      (tool : CompiledTool c) (params : Value Number) (token : CapabilityToken) (command : Str)
      → IsPermitted c tool params token command
      → severity (evaluate_single_action c command tool params) ≤ 2
  unfolding evaluate_single_action decide_matched
  single-allow tool params token command h =
      rw (h.found, evaluate_single_action) (ground (arith, h.constrained, h.not_commit))

  each-allow :
      (tool : CompiledTool c) (params : Value Number) (token : CapabilityToken)
      (commands : List Str)
      → All (IsPermitted c tool params token) commands
      → All
          (λ d. severity d ≤ 2)
          (map (λ command. evaluate_single_action c command tool params) commands)
  each-allow tool params token [] h = tt
  each-allow tool params token (command ∷ commands) h =
      (single-allow tool params token command h.0, each-allow tool params token commands h.1)

  actions-allow :
      (tool : CompiledTool c) (params : Value Number) (token : CapabilityToken)
      (commands : List Str)
      → commands ≢ []
      → All (IsPermitted c tool params token) commands
      → (t : CapabilityToken) × (decide_actions c tool params (some commands) ≡ allow t)
  unfolding decide_actions
  actions-allow tool params token [] some_action h = absurd (some_action refl)
  actions-allow tool params token (command ∷ commands) some_action h =
      combine_decisions-allow (evaluate_single_action c command tool params)
        (map (λ command. evaluate_single_action c command tool params) commands)
        (each-allow tool params token (command ∷ commands) h)

  decide_tool-some :
      (tool : CompiledTool c) (params : Value Number)
      → tool.enabled ≡ true
      → check_constraints c tool.constraints params ≡ true
      → decide_tool c (some tool) params
        ≡ decide_actions c tool params (extract tool.match_source params)
  unfolding decide_tool
  decide_tool-some tool params on held = ground arith

  -- Whatever meets the conditions under which an invocation may be permitted without a human, for
  -- some token, is allowed, with some token.
  pub evaluate-permitted :
      (proposal : ToolInvocation c proposed) (policy : Policy.Policy c)
      (budget : Option (BudgetContext c)) (token : CapabilityToken)
      → IsAllowed c proposal policy budget token
      → (t : CapabilityToken) × ((evaluate c proposal policy budget).1 ≡ allow t)
  unfolding evaluate
  evaluate-permitted proposal policy budget token h =
      let (t, e) = actions-allow h.tool proposal.params token h.actions h.some_action h.permitted in
      let decided = decide_tool-some h.tool proposal.params h.enabled h.constrained in
      let extracted = ap (decide_actions c h.tool proposal.params) h.extracted in
      (t, rw (h.in_budget, decide) (rw h.found (decided ∙ extracted ∙ e)))
