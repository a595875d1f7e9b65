-- ===== src/Runtime/AgentLoop.antt =====
-- runtime/mod.rs: how the tool calls of a model response are processed. What the loop does to the
-- world outside is a list of effects, in the order in which they happen. All features are on.
pub mod Pairing
pub mod Effects
pub mod Gating
pub mod Opacity
use cherub.Base.{
  ℕ, Bool, true, false, Option, none, some, List, [], ◌∷◌, ◌++◌, if◌then◌else◌, is_empty, ◌>>=◌,
}
use cherub.Base.Bytes.{Str, lit}
use cherub.Base.Result.{Result, ok, err}
use cherub.Crates.{Crates}
use cherub.Json.{Value, get, as_str}
use cherub.Enforcement.Tier.{Tier, CapabilityToken, as_str as tier_str}
use cherub.Enforcement.Policy
use cherub.Enforcement.Decision.{Decision, approve_escalation}
use cherub.Enforcement.Evaluate.{ToolInvocation, proposed, evaluated, BudgetContext, evaluate}
use cherub.Providers.{CherubError, invalid_invocation, Message, tool_result}
use cherub.Runtime.Session.{Session, push, persist_last}
use cherub.Tools.Registry.{ToolImpl, find_tool, enforcement_name, enrich_params}
use cherub.Runtime.Output.{
  OutputEvent, AuditDecision, ToolContext, AuditEvent, ToolUse, Effect, Env, tool_allowed,
  tool_rejected, tool_approved, tool_denied, tool_output, tool_error, emitted, audited, asked,
  executed, persisted,
}

-- `enriched.get("command").or_else(..).or_else(..).and_then(as_str).unwrap_or(..)`.
abbrev text_or : Option Str → Str
text_or none = lit "<no action>"
text_or (some s) = s

unfoldable pub display_str : {N : Type 0} → Value N → Str
display_str enriched = elim (get enriched (lit "command")) [
  | some v ↦ text_or (as_str v)
  | none ↦ elim (get enriched (lit "action")) [
    | some v ↦ text_or (as_str v)
    | none ↦ text_or (get enriched (lit "__mcp_tool") >>= as_str)
  ]
]

module _ {N : Type 0} (env : Env N) where
  open env use {World, run_tool, request_approval, error_text, has_audit_store}

  pub record Loop : Type 0 where
    pub world : World
    pub session : Session N
    pub effects : List (Effect N)

  unfoldable pub log : Effect N → Loop → Loop
  log e l = record l { effects = l.effects ++ e ∷ [] }

  unfoldable pub emit : OutputEvent → Loop → Loop
  unfolding log
  emit event l = log (emitted event) l

  -- `AgentLoop::audit`.
  unfoldable pub audit : AuditEvent → Loop → Loop
  unfolding log
  audit event l = if has_audit_store then log (audited event) l else l

  unfoldable pub persist : Option (ℕ × ℕ × Message N) → Loop → Loop
  unfolding log
  persist none l = l
  persist (some (id, ordinal, message)) l = log (persisted id ordinal message) l

  -- `session.push(Message::ToolResult { .. })` and `session.persist_last()`.
  unfoldable pub push_result : Str → Str → Bool → Loop → Loop
  unfolding persist
  push_result tool_use_id content is_error l =
      let session = (push (tool_result tool_use_id content is_error) l.session).0 in
      persist (persist_last session)
        (record { world = l.world; session = session; effects = l.effects })

  unfoldable pub execute_found :
      Option ToolImpl
      → Str
      → Value N
      → CapabilityToken
      → ToolContext
      → Loop
      → Result CherubError Str × Loop
  unfolding log
  execute_found none tool params token ctx l =
      (err (invalid_invocation (lit "unknown tool: " ++ tool)), l)
  execute_found (some found) tool params token ctx l =
      let (result, world) = run_tool found params token ctx l.world in
      (
        result,
        log (executed found params token)
            (record { world = world; session = l.session; effects = l.effects }),
      )

  -- tools/mod.rs: `ToolInvocation::<Evaluated>::execute`.
  unfoldable pub execute :
      List ToolImpl
      → Str
      → Value N
      → CapabilityToken
      → ToolContext
      → Loop
      → Result CherubError Str × Loop
  unfolding execute_found
  execute registry tool params token ctx l =
      execute_found (find_tool registry tool) tool params token ctx l

  abbrev pub event_of :
      ToolContext → ToolUse N → Str → AuditDecision → Option Str → Option Bool → AuditEvent
  event_of ctx call display decision tier is_error = record {
    ctx = ctx;
    tool = call.name;
    action = display;
    decision = decision;
    tier = tier;
    is_error = is_error;
  }

  -- The two arms that follow an execution.
  unfoldable pub after_execution :
      ToolContext
      → ToolUse N
      → Str
      → AuditDecision
      → Option Str
      → Result CherubError Str
      → Loop
      → Loop
  unfolding audit emit push_result
  after_execution ctx call display decision tier (ok output) l =
      let recorded = audit (event_of ctx call display decision tier (some false)) l in
      push_result call.id output false
        (if is_empty output then recorded else emit (tool_output output) recorded)
  after_execution ctx call display decision tier (err e) l =
      let recorded = audit (event_of ctx call display decision tier (some true)) l in
      push_result call.id (error_text e) true (emit (tool_error (error_text e)) recorded)

  -- An allowed or an approved call, with the token for it.
  unfoldable pub run_with :
      List ToolImpl
      → ToolContext
      → ToolUse N
      → Str
      → Value N
      → AuditDecision
      → CapabilityToken
      → Str
      → Loop
      → Loop
  unfolding execute after_execution
  run_with registry ctx call display enriched decision token tier l =
      let (result, ran) = execute registry call.name enriched token ctx l in
      after_execution ctx call display decision (some tier) result ran

  -- What follows the question to a human.
  unfoldable pub after_approval :
      List ToolImpl → ToolContext → ToolUse N → Str → Value N → Tier → Bool → Loop → Loop
  unfolding emit run_with push_result audit
  after_approval registry ctx call display enriched tier true l =
      run_with registry ctx call display enriched AuditDecision.approve (approve_escalation tier)
        (tier_str tier) (emit (tool_approved call.name display) l)
  after_approval registry ctx call display enriched tier false l =
      push_result call.id (lit "action not permitted") true (
        emit (tool_denied call.name display)
          (audit (event_of ctx call display AuditDecision.deny (some (tier_str tier)) none) l))

  -- The gate is shown the input as the model gave it.
  unfoldable pub ask : ToolUse N → Str → Loop → Bool × Loop
  unfolding log
  ask call display l =
      let (answer, world) = request_approval call.name display call.input l.world in
      (
        answer,
        log (asked call.name display call.input)
            (record { world = world; session = l.session; effects = l.effects }),
      )

  -- `match decision`.
  unfoldable pub process_decision :
      List ToolImpl → ToolContext → ToolUse N → Str → Value N → Decision → Loop → Loop
  unfolding emit run_with push_result audit after_approval ask
  process_decision registry ctx call display enriched (Decision.allow token) l =
      run_with registry ctx call display enriched AuditDecision.allow token (tier_str token.tier)
        (emit (tool_allowed call.name display) l)
  process_decision registry ctx call display enriched Decision.reject l =
      push_result call.id (lit "action not permitted") true (
        emit (tool_rejected call.name display)
          (audit (event_of ctx call display AuditDecision.reject none none) l))
  process_decision registry ctx call display enriched (Decision.escalate tier) l =
      let (answer, asked_l) =
        ask call display (
          audit (event_of ctx call display AuditDecision.escalate (some (tier_str tier)) none) l) in
      after_approval registry ctx call display enriched tier answer asked_l

module _ (c : Crates) (env : Env c.Number) where
  -- The decision on a call.
  unfoldable pub decision_on :
      List ToolImpl → Policy.Policy c → Option (BudgetContext c) → ToolUse c.Number → Decision
  decision_on registry policy budget call =
      (evaluate c
        (record {
          tool = enforcement_name registry call.name;
          action = lit "execute";
          params = enrich_params registry call.name call.input;
        })
        policy budget).1

  -- The body of the loop over the tool calls.
  unfoldable pub process_tool_use :
      List ToolImpl
      → Policy.Policy c
      → Option (BudgetContext c)
      → ToolContext
      → ToolUse c.Number
      → Loop env
      → Loop env
  unfolding decision_on process_decision display_str
  process_tool_use registry policy budget ctx call l =
      let enriched = enrich_params registry call.name call.input in
      process_decision env registry ctx call (display_str enriched) enriched
        (decision_on registry policy budget call) l

  unfoldable pub process_tool_uses :
      List ToolImpl
      → Policy.Policy c
      → Option (BudgetContext c)
      → ToolContext
      → List (ToolUse c.Number)
      → Loop env
      → Loop env
  unfolding process_tool_use
  process_tool_uses registry policy budget ctx [] l = l
  process_tool_uses registry policy budget ctx (call ∷ calls) l =
      process_tool_uses registry policy budget ctx calls
        (process_tool_use registry policy budget ctx call l)
