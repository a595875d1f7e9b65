-- ===== src/Runtime/Turn/State.antt =====
-- runtime/mod.rs: what a turn of the agent loop is run with, its state, and its calls of the
-- provider and of the stores.
use cherub.Base.{ℕ, Bool, Option, none, some, List, if◌then◌else◌}
use cherub.Base.Bytes.{Str}
use cherub.Base.Result.{Result}
use cherub.Crates.{Crates}
use cherub.Json.{Value}
use cherub.Enforcement.Policy
use cherub.Providers.{CherubError, Message, ApiUsage}
use cherub.Storage.{Memory, NewMemory, CallType, NewTokenUsage}
use cherub.Tools.Registry.{ToolImpl}
use cherub.Runtime.Session.{Session, push, persist_last}
use cherub.Runtime.Tokens.{ToolDefinition}
use cherub.Runtime.Output.{Effect, completed, usage_recorded, Env}
use cherub.Runtime.AgentLoop.{Loop, log, persist}

-- What a turn calls and cannot see into: the provider, the stores, the clock, serde_json. A read of
-- costs that fails is none.
pub record Surroundings (c : Crates) (env : Env c.Number) : Type 0 where
  pub complete :
      Str
      → List (Message c.Number)
      → List (ToolDefinition c.Number)
      → env.World
      → Result CherubError (Message c.Number × Option ApiUsage) × env.World
  pub model_name : Str
  pub value_text : Value c.Number → Str
  pub parse_array : Str → Option (List (Value c.Number))
  pub has_cost_store : Bool
  pub append_usage : NewTokenUsage → env.World → env.World
  pub session_cost : ℕ → env.World → Option c.F64 × env.World
  -- The cost of a user since midnight.
  pub period_cost : Str → env.World → Option c.F64 × env.World
  pub zero_cost : c.F64
  pub has_memory_store : Bool
  pub search : Str → Str → ℕ → env.World → Result CherubError (List (Memory c.F64)) × env.World
  pub store_memory : NewMemory c.Number → env.World → env.World
  -- The number 0.8, and how a date and a confidence are written.
  pub memory_confidence : c.Number
  pub format_date : ℕ → Str
  pub format_confidence : c.F64 → Str

-- The parts of `AgentLoop` that do not change.
pub record Setup (c : Crates) : Type 0 where
  pub policy : Policy.Policy c
  pub registry : List ToolImpl
  pub system_prompt : Str
  pub tool_definitions : List (ToolDefinition c.Number)

-- How a turn ends that does not end well: with an error, or with a panic.
pub data TurnError : Type 0 where
  failed : CherubError → TurnError
  panicked : TurnError

-- The parts of `AgentLoop` that change.
pub record Agent {N : Type 0} (env : Env N) : Type 0 where
  pub loop : Loop env
  pub last_usage : Option ApiUsage

module _ {N : Type 0} (env : Env N) where
  -- `session.push(message)` and `session.persist_last()`.
  unfoldable pub push_message : Message N → Loop env → Loop env
  unfolding persist
  push_message message l =
      let session = (push message l.session).0 in
      persist env (persist_last session)
        (record { world = l.world; session = session; effects = l.effects })

  -- An effect with what it does to the world.
  unfoldable pub perform : Effect N → (env.World → env.World) → Loop env → Loop env
  unfolding log
  perform effect change l =
      log env effect (record { world = change l.world; session = l.session; effects = l.effects })

  -- What is read of the world.
  unfoldable pub observe : {A : Type 0} → (env.World → A × env.World) → Loop env → A × Loop env
  observe read l =
      let (answer, world) = read l.world in
      (answer, record { world = world; session = l.session; effects = l.effects })

module _ (c : Crates) (env : Env c.Number) (s : Surroundings c env) where
  unfoldable pub usage_row : ApiUsage → CallType → Session c.Number → NewTokenUsage
  usage_row usage call_type session = record {
    session_id = session.id;
    user_id = session.user_id;
    turn_number = session.next_ordinal;
    model_name = s.model_name;
    input_tokens = usage.input_tokens;
    output_tokens = usage.output_tokens;
    call_type = call_type;
  }

  -- `AgentLoop::record_cost`.
  unfoldable pub record_cost : ApiUsage → CallType → Loop env → Loop env
  unfolding perform usage_row
  record_cost usage call_type l =
      let row = usage_row usage call_type l.session in
      if s.has_cost_store then perform env (usage_recorded row) (s.append_usage row) l else l

  -- `if let Some(u) = usage { self.record_cost(u, call_type) }`.
  unfoldable pub record_any : Option ApiUsage → CallType → Loop env → Loop env
  unfolding record_cost
  record_any none call_type l = l
  record_any (some usage) call_type l = record_cost usage call_type l

  -- `self.provider.complete(..)`.
  unfoldable pub call_provider :
      CallType
      → Str
      → List (Message c.Number)
      → List (ToolDefinition c.Number)
      → Loop env
      → Result CherubError (Message c.Number × Option ApiUsage) × Loop env
  unfolding observe log
  call_provider call_type system messages tools l =
      let (response, answered) = observe env (s.complete system messages tools) l in
      (response, log env (completed call_type system messages) answered)
