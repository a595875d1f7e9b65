-- ===== src/Tests/Turns.antt =====
-- Turns of the agent loop.
use cherub.Base.{ℕ, ◌≡◌, ◌≤◌, refl, true, false, Option, none, some, List, [], ◌∷◌, ◌++◌, All}
use cherub.Base.Bytes.{Str, lit}
use cherub.Base.Result.{ok}
use cherub.Json.{object, end}
use cherub.Providers.{
  Message, user, assistant, tool_result, UserContent, ContentBlock, StopReason, end_turn,
}
use cherub.Runtime.Session.{push}
use cherub.Runtime.Output.{Effect}
use cherub.Runtime.Turn.{run_turn, max_iterations}
use cherub.Runtime.Turn.State.{Surroundings, Setup, Agent}
use cherub.Runtime.Turn.Conversation.{Turn, Allowed, inferences}
use cherub.Runtime.Turn.Sanction.{IsSanctioned}
use cherub.Runtime.Turn.Refinement.{run_turn-refines, run_turn-gated, run_turn-inferences}
use cherub.Runtime.Turn.Ends.{Ends, IsResponsive, run_turn-Ends, run_turn-eq_ok}
use cherub.Tests.Toy.{toy_crates, toy_policy, command_params}
use cherub.Tests.Calls.{toy_env, toy_registry, start}

-- The model asks for `ls` once, and then replies.
abbrev asked_blocks : List (ContentBlock ℕ)
asked_blocks = ContentBlock.tool_use (lit "1") (lit "bash") (command_params (lit "ls")) ∷ []

abbrev reply : List (Message ℕ) → List (ContentBlock ℕ) × StopReason
reply [] = ([], end_turn)
reply (user content ∷ []) = (asked_blocks, StopReason.tool_use)
reply (m ∷ messages) = (ContentBlock.text (lit "done") ∷ [], end_turn)

abbrev toy_surroundings : Surroundings toy_crates toy_env
toy_surroundings = record {
  complete = λ system messages tools world.
      (ok (assistant (reply messages).0 (reply messages).1, none), world);
  model_name = lit "claude-sonnet";
  value_text = λ v. [];
  parse_array = λ s. none;
  has_cost_store = true;
  append_usage = λ row world. world;
  session_cost = λ id world. (none, world);
  period_cost = λ user_id world. (none, world);
  zero_cost = 0;
  has_memory_store = true;
  search = λ query user_id limit world. (ok [], world);
  store_memory = λ memory world. world;
  memory_confidence = 0;
  format_date = λ t. [];
  format_confidence = λ f. [];
}

abbrev toy_setup : Setup toy_crates
toy_setup = record {
  policy = toy_policy;
  registry = toy_registry;
  system_prompt = lit "be brief";
  tool_definitions = [];
}

abbrev toy_agent : Agent toy_env
toy_agent = record { loop = start; last_usage = none }

abbrev question : List UserContent
question = UserContent.text (lit "what is here?") ∷ []

toy_turn :
    (run_turn toy_crates toy_env toy_surroundings toy_setup question
      toy_agent).1.loop.session.messages
    ≡ user question
      ∷ assistant asked_blocks StopReason.tool_use
      ∷ tool_result (lit "1") (lit "done") false
      ∷ assistant (ContentBlock.text (lit "done") ∷ []) end_turn
      ∷ []
unfolding run_turn cherub.Runtime.Prompt.extract_user_text cherub.Runtime.Session.persist_last push
    cherub.Enforcement.Evaluate.evaluate cherub.Enforcement.Evaluate.budget_decision
    cherub.Enforcement.Evaluate.decide_tool cherub.Enforcement.Policy.find_tool
    cherub.Tools.Registry.enforcement_name cherub.Tools.Registry.find_tool
    cherub.Enforcement.Policy.check_constraints cherub.Enforcement.Extraction.extract
    cherub.Enforcement.Extraction.field cherub.Json.get_str cherub.Tools.Registry.enrich_params
    cherub.Enforcement.Shell.parse_commands cherub.Base.Bytes.trim
    cherub.Enforcement.Decision.combine_decisions cherub.Enforcement.Evaluate.evaluate_single_action
    cherub.Enforcement.Policy.match_action cherub.Json.get cherub.Json.get_key
    cherub.Runtime.Tokens.estimate_tokens cherub.Runtime.Tokens.context_window_size
    cherub.Runtime.Session.split_for_compaction
toy_turn = refl

run_turn-refines_example :
    Turn max_iterations
      (push (user question) start.session).0
      (run_turn toy_crates toy_env toy_surroundings toy_setup question toy_agent).1.loop.session
run_turn-refines_example =
    run_turn-refines toy_crates toy_env toy_surroundings toy_setup question toy_agent

run_turn-gated_example :
    (done : List (Effect ℕ)) × ((run_turn toy_crates toy_env toy_surroundings toy_setup question
        toy_agent).1.loop.effects
      ≡ [] ++ done)
    × All (Allowed (IsSanctioned toy_crates toy_env toy_surroundings toy_setup)) done
run_turn-gated_example =
    run_turn-gated toy_crates toy_env toy_surroundings toy_setup question toy_agent

run_turn-inferences_example :
    (done : List (Effect ℕ)) × ((run_turn toy_crates toy_env toy_surroundings toy_setup question
        toy_agent).1.loop.effects
      ≡ [] ++ done)
    × (inferences done ≤ max_iterations)
run_turn-inferences_example =
    run_turn-inferences toy_crates toy_env toy_surroundings toy_setup question toy_agent

run_turn-Ends_example :
    Ends toy_crates toy_env toy_surroundings toy_setup
      (run_turn toy_crates toy_env toy_surroundings toy_setup question toy_agent).0
run_turn-Ends_example =
    run_turn-Ends toy_crates toy_env toy_surroundings toy_setup question toy_agent

toy_responsive : IsResponsive toy_crates toy_env toy_surroundings toy_setup
toy_responsive system messages tools world = ((reply messages).0, (reply messages).1, none, refl)

run_turn-eq_ok_example :
    (run_turn toy_crates toy_env toy_surroundings toy_setup question toy_agent).0 ≡ ok tt
run_turn-eq_ok_example =
    run_turn-eq_ok toy_crates toy_env toy_surroundings toy_setup question toy_agent toy_responsive
