-- ===== src/Runtime/Turn/Sanction.antt =====
-- runtime/mod.rs: what may stand behind the execution of a tool during a turn.
use cherub.Base.{◌≡◌, ◌⊎◌, Option, some, List}
use cherub.Base.Bytes.{Str, lit}
use cherub.Base.Result.{ok}
use cherub.Crates.{Crates}
use cherub.Json.{Value}
use cherub.Enforcement.Tier.{CapabilityToken}
use cherub.Enforcement.Decision.{Decision}
use cherub.Enforcement.Evaluate.{BudgetContext}
use cherub.Providers.{Message, assistant, ContentBlock, StopReason, ApiUsage}
use cherub.Tools.Registry.{ToolImpl, find_tool}
use cherub.Runtime.Output.{Env}
use cherub.Runtime.AgentLoop.Gating.{IsAuthorized}
use cherub.Runtime.Turn.{tool_uses}
use cherub.Runtime.Turn.State.{Surroundings, Setup}
use cherub.Runtime.Turn.Flush.{promotion_params, promotion_decision}

module _ (c : Crates) (env : Env c.Number) (s : Surroundings c env) (setup : Setup c) where
  -- The provider answered an inference with these blocks.
  abbrev pub IsResponse : List (ContentBlock c.Number) → Type 0
  IsResponse content =
      (system : Str) × (messages : List (Message c.Number)) × (world : env.World)
      × (stop_reason : StopReason) × (usage : Option ApiUsage) × ((s.complete system messages
            setup.tool_definitions world).0
          ≡ ok (assistant content stop_reason, usage))

  -- For a call in a response of the provider, as the policy or the human grants it.
  abbrev pub IsForCall : ToolImpl → Value c.Number → CapabilityToken → Type 0
  IsForCall tool params token =
      (content : List (ContentBlock c.Number)) × (budget : Option (BudgetContext c)) × IsResponse
        content
      × IsAuthorized c env setup.registry setup.policy budget (tool_uses content) tool params token

  -- For the promotion of a fact, which the policy allows.
  abbrev pub IsPromotion : ToolImpl → Value c.Number → CapabilityToken → Type 0
  IsPromotion tool params token =
      (content : Str) × (category : Str) × (path : Str) × (params
        ≡ promotion_params c env s setup content category path)
      × (promotion_decision c env s setup params ≡ Decision.allow token)
      × (find_tool setup.registry (lit "memory") ≡ some tool)

  abbrev pub IsSanctioned : ToolImpl → Value c.Number → CapabilityToken → Type 0
  IsSanctioned tool params token = IsForCall tool params token ⊎ IsPromotion tool params token
