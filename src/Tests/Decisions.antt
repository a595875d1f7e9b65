-- ===== src/Tests/Decisions.antt =====
-- The policy and its decisions, on the small policy.
use mathlib.Core.Logic.Or
use mathlib.Core.List.Perm
use mathlib.Core.List.{Perm, Mem, mem-cons}
use cherub.Base.{
  ℕ, ◌≤◌, ◌≡◌, ◌≢◌, refl, ◌⊎◌, inl, inr, Bool, true, false, ◌||◌, Option, none, some, List, [], ◌∷◌,
  ◌++◌, All, any,
}
use cherub.Base.Bytes.{Str, lit, contains}
use cherub.Base.Result.{ok, try_map}
use cherub.Json.{Value, string}
use cherub.Enforcement.Tier.{Tier, observe, act, commit, CapabilityToken}
use cherub.Enforcement.Policy.{
  Policy, ToolConfig, ActionConfig, CompiledAction, CompiledTool, CompiledBudget, command, reject,
  escalate, find_tool, match_action,
}
use cherub.Enforcement.Policy.Compile.{compile_action, compile_tool}
use cherub.Enforcement.Policy.Order.{
  IsDescending, IsHighest, compile_tool-IsDescending, match_action-IsHighest,
}
use cherub.Enforcement.Decision.{Decision, combine_decisions}
use cherub.Enforcement.Decision.Laws.{
  severity, combine_decisions-most_restrictive, combine_decisions-perm,
}
use cherub.Enforcement.Evaluate.{BudgetContext, budget_decision, evaluate}
use cherub.Enforcement.Evaluate.Soundness.{IsAllowed, evaluate-allow}
use cherub.Enforcement.Evaluate.Budget.{IsBarred, evaluate-barred, evaluate-permitted}
use cherub.Enforcement.Evaluate.Limits.{IsBudgeted, evaluate-IsBudgeted}
use cherub.Tests.Toy.{toy_crates, toy_policy, bash_tool, bash_call, ls_allowed}

evaluate-allow_example :
    IsAllowed toy_crates (bash_call (lit "ls")) toy_policy none (record { tier = observe })
evaluate-allow_example =
    evaluate-allow toy_crates (bash_call (lit "ls")) toy_policy none (record { tier = observe })
      ls_allowed

-- In budget, as no budget is configured.
in_budget : budget_decision toy_crates toy_policy.budget none ≡ none
unfolding budget_decision
in_budget = refl

-- The policy has no action for `rm`.
rm_unmatched : match_action toy_crates bash_tool (lit "rm") ≡ none
unfolding match_action
rm_unmatched = refl

bash_found : find_tool toy_crates toy_policy (lit "bash") ≡ some bash_tool
unfolding find_tool
bash_found = refl

rm_extracted :
    cherub.Enforcement.Extraction.extract command (bash_call (lit "ls; rm")).params
    ≡ some (lit "ls" ∷ lit "rm" ∷ [])
unfolding cherub.Enforcement.Extraction.extract cherub.Enforcement.Extraction.field
    cherub.Json.get_str cherub.Enforcement.Shell.parse_commands cherub.Base.Bytes.trim
rm_extracted = refl

rm-IsBarred : IsBarred toy_crates toy_policy (bash_call (lit "ls; rm"))
rm-IsBarred =
    IsBarred.unmatched bash_tool (lit "ls" ∷ lit "rm" ∷ []) (lit "rm") bash_found rm_extracted
      (mem-cons.1 (Or.inr (mem-cons.1 (Or.inl refl)))) rm_unmatched

evaluate-barred_example :
    (evaluate toy_crates (bash_call (lit "ls; rm")) toy_policy none).1 ≡ Decision.reject
evaluate-barred_example =
    evaluate-barred toy_crates (bash_call (lit "ls; rm")) toy_policy none in_budget rm-IsBarred

evaluate-permitted_example :
    (t : CapabilityToken) × ((evaluate toy_crates (bash_call (lit "ls")) toy_policy none).1
      ≡ Decision.allow t)
evaluate-permitted_example =
    evaluate-permitted toy_crates (bash_call (lit "ls")) toy_policy none (record { tier = observe })
      (evaluate-allow toy_crates (bash_call (lit "ls")) toy_policy none (record { tier = observe })
        ls_allowed)

abbrev small_budget : CompiledBudget toy_crates
small_budget = record { session_limit_usd = some 5; daily_limit_usd = none; on_exceeded = escalate }

abbrev spent : BudgetContext toy_crates
spent = record { session_cost_usd = 5; daily_cost_usd = 9 }

abbrev frugal : Policy toy_crates
frugal = record { tools = bash_tool ∷ []; budget = some small_budget }

over_budget :
    (evaluate toy_crates (bash_call (lit "ls")) frugal (some spent)).1 ≡ Decision.escalate commit
unfolding evaluate budget_decision
over_budget = refl

evaluate-IsBudgeted_example :
    IsBudgeted toy_crates frugal.budget spent
      (evaluate toy_crates (bash_call (lit "ls")) frugal none).1
      (evaluate toy_crates (bash_call (lit "ls")) frugal (some spent)).1
evaluate-IsBudgeted_example = evaluate-IsBudgeted toy_crates (bash_call (lit "ls")) frugal spent

abbrev mixed : List Decision
mixed = Decision.allow (record { tier = act }) ∷ Decision.escalate commit ∷ []

combine_decisions-most_restrictive_example :
    ((mixed ≡ []) × (combine_decisions mixed ≡ Decision.reject))
    ⊎ (Mem (combine_decisions mixed) mixed
        × All (λ e. severity e ≤ severity (combine_decisions mixed)) mixed)
combine_decisions-most_restrictive_example = combine_decisions-most_restrictive mixed

combine_decisions-perm_example :
    combine_decisions mixed
    ≡ combine_decisions (Decision.escalate commit ∷ Decision.allow (record { tier = act }) ∷ [])
combine_decisions-perm_example =
    combine_decisions-perm mixed
      (Decision.escalate commit ∷ Decision.allow (record { tier = act }) ∷ [])
      (Perm.swap (Decision.escalate commit) (Decision.allow (record { tier = act })) [])

mixed_full : mixed ≢ []
mixed_full e = cc

abbrev action_config : Tier → Str → ActionConfig toy_crates
action_config tier pattern = record {
  tier = tier;
  patterns = pattern ∷ [];
  constraints = [];
  on_constraint_failure = none;
}

abbrev tool_config : ToolConfig toy_crates
tool_config = record {
  enabled = true;
  match_source = command;
  actions =
      (lit "read", action_config observe (lit "ls"))
      ∷ (lit "remove", action_config commit (lit "rm"))
      ∷ [];
  constraints = [];
}

abbrev compiled_action : Str → Tier → Str → CompiledAction toy_crates
compiled_action name tier pattern = record {
  name = name;
  tier = tier;
  patterns = pattern ∷ [];
  constraints = [];
  on_constraint_failure = reject;
}

abbrev compiled : CompiledTool toy_crates
compiled = record {
  name = lit "bash";
  enabled = true;
  match_source = command;
  actions =
      compiled_action (lit "remove") commit (lit "rm")
      ∷ compiled_action (lit "read") observe (lit "ls")
      ∷ [];
  constraints = [];
}

compiles : compile_tool toy_crates (lit "bash", tool_config) ≡ ok compiled
unfolding compile_tool
compiles = refl

compile_tool-IsDescending_example :
    (actions : List (CompiledAction toy_crates)) × (try_map
        (compile_action toy_crates)
        tool_config.actions
      ≡ ok actions)
    × Perm compiled.actions actions
    × IsDescending toy_crates compiled.actions
compile_tool-IsDescending_example =
    compile_tool-IsDescending toy_crates (lit "bash") tool_config compiled compiles

match_action-IsHighest_example :
    IsHighest toy_crates
      (λ a. any (λ p. contains p (lit "ls; rm")) a.patterns)
      compiled.actions
      (match_action toy_crates compiled (lit "ls; rm"))
match_action-IsHighest_example =
    match_action-IsHighest toy_crates (lit "bash") tool_config compiled (lit "ls; rm") compiles
