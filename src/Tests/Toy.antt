-- ===== src/Tests/Toy.antt =====
-- Crates by simple functions, and a small policy.
use cherub.Base.{
  ℕ, Bool, true, false, Option, none, some, List, [], ◌∷◌, any, ltb, leb, ◌==◌, ◌≡◌, refl,
}
use cherub.Base.Bytes.{Str, lit, contains}
use cherub.Crates.{Crates}
use cherub.Json.{Value, string, object, Map, entry, end}
use cherub.Enforcement.Tier.{observe}
use cherub.Enforcement.Policy
use cherub.Enforcement.Policy.{CompiledAction, CompiledTool, command, reject}
use cherub.Enforcement.Decision.{Decision, allow}
use cherub.Enforcement.Evaluate.{ToolInvocation, proposed, evaluate, decide, transition}

-- A regular expression is a text to be contained.
abbrev pub toy_crates : Crates
toy_crates = record {
  Number = ℕ;
  number_eq = λ a b. a == b;
  F64 = ℕ;
  as_f64 = λ n. some n;
  f64_lt = ltb;
  f64_le = leb;
  Regex = Str;
  build_regex = λ s. some s;
  regex_is_match = contains;
  RegexSet = List Str;
  build_regex_set = λ s. some s;
  regex_set_is_match = λ set text. any (λ p. contains p text) set;
}

abbrev pub read_action : CompiledAction toy_crates
read_action = record {
  name = lit "read";
  tier = observe;
  patterns = lit "ls" ∷ [];
  constraints = [];
  on_constraint_failure = reject;
}

abbrev pub bash_tool : CompiledTool toy_crates
bash_tool = record {
  name = lit "bash";
  enabled = true;
  match_source = command;
  actions = read_action ∷ [];
  constraints = [];
}

abbrev pub toy_policy : Policy.Policy toy_crates
toy_policy = record { tools = bash_tool ∷ []; budget = none }

abbrev pub command_params : Str → Value ℕ
command_params s = object (entry (lit "command") (string s) end)

abbrev pub bash_call : Str → ToolInvocation toy_crates proposed
bash_call s = record { tool = lit "bash"; action = lit "execute"; params = command_params s }

-- A call of `bash` is decided by its policy.
pub ls_allowed :
    (evaluate toy_crates (bash_call (lit "ls")) toy_policy none).1
    ≡ allow (record { tier = observe })
unfolding evaluate cherub.Enforcement.Evaluate.budget_decision
    cherub.Enforcement.Evaluate.decide_tool Policy.find_tool Policy.check_constraints
    cherub.Enforcement.Extraction.extract cherub.Enforcement.Extraction.field cherub.Json.get_str
    cherub.Enforcement.Shell.parse_commands cherub.Base.Bytes.trim
    cherub.Enforcement.Decision.combine_decisions cherub.Enforcement.Evaluate.evaluate_single_action
    Policy.match_action
ls_allowed = refl
