-- ===== src/Runtime/Output.antt =====
-- runtime/output.rs with the audit events of storage/mod.rs and the tool context of tools/mod.rs:
-- what the agent loop tells and asks the world outside.
use cherub.Base.{ℕ, Bool, Option, List}
use cherub.Base.Bytes.{Str}
use cherub.Base.Result.{Result}
use cherub.Json.{Value}
use cherub.Enforcement.Tier.{CapabilityToken}
use cherub.Providers.{CherubError, Message}
use cherub.Storage.{CallType, NewTokenUsage, NewMemory}
use cherub.Tools.Registry.{ToolImpl}

-- runtime/output.rs, the events of tool calls.
pub data OutputEvent : Type 0 where
  tool_allowed tool_rejected tool_approved tool_denied : Str → Str → OutputEvent
  text tool_output tool_error warning : Str → OutputEvent

-- `AuditDecision`.
pub data AuditDecision : Type 0 where
  allow reject escalate approve deny : AuditDecision

-- `ToolContext`.
pub record ToolContext : Type 0 where
  pub user_id : Str
  pub session_id : ℕ
  pub turn_number : ℕ

-- `NewAuditEvent`, without the duration.
pub record AuditEvent : Type 0 where
  pub ctx : ToolContext
  pub tool : Str
  pub action : Str
  pub decision : AuditDecision
  pub tier : Option Str
  pub is_error : Option Bool

-- A call that the model asks for: its id, the tool's name and its input.
pub record ToolUse (N : Type 0) : Type 0 where
  pub id : Str
  pub name : Str
  pub input : Value N

-- An effect on the world outside.
pub data Effect (N : Type 0) : Type 0 where
  emitted : OutputEvent → Effect N
  audited : AuditEvent → Effect N
  asked : Str → Str → Value N → Effect N
  executed : ToolImpl → Value N → CapabilityToken → Effect N
  persisted : ℕ → ℕ → Message N → Effect N
  -- A call of the provider, and the writes to the stores that go with a turn.
  completed : CallType → Str → List (Message N) → Effect N
  usage_recorded : NewTokenUsage → Effect N
  memory_stored : NewMemory N → Effect N
  memory_touched : ℕ → Effect N
  session_replaced : ℕ → List (Message N) → Effect N

-- What the loop calls and cannot see into: the tools, the approval gate, the texts of errors.
pub record Env (N : Type 0) : Type 1 where
  pub World : Type 0
  pub run_tool :
      ToolImpl → Value N → CapabilityToken → ToolContext → World → Result CherubError Str × World
  pub request_approval : Str → Str → Value N → World → Bool × World
  pub error_text : CherubError → Str
  -- Whether there is an audit store.
  pub has_audit_store : Bool
