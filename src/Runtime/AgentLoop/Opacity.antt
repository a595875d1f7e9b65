-- ===== src/Runtime/AgentLoop/Opacity.antt =====
-- runtime/mod.rs: what the refusals of a call leave in the session.
use cherub.Base.{true, false, ◌≡◌, refl, sym, ap, ◌∙◌, none, some, List, arith}
use cherub.Base.Bytes.{Str, lit}
use cherub.Json.{Value}
use cherub.Enforcement.Tier.{Tier, as_str as tier_str}
use cherub.Enforcement.Decision.{Decision}
use cherub.Providers.{tool_result}
use cherub.Runtime.Session.{push}
use cherub.Runtime.AgentLoop.Pairing.{push_result-session, emit-session, audit-session}
use cherub.Tools.Registry.{ToolImpl}
use cherub.Runtime.Output.{ToolUse, ToolContext, AuditDecision, AuditEvent, OutputEvent, Env}
use cherub.Runtime.AgentLoop.{
  Loop, log, emit, audit, event_of, push_result, after_approval, ask, process_decision,
}

module _ {N : Type 0} (env : Env N) where
  audit-world : (event : AuditEvent) (l : Loop env) → (audit env event l).world ≡ l.world
  unfolding audit log
  audit-world event l = ground arith

  ask-session :
      (call : ToolUse N) (display : Str) (l : Loop env)
      → (ask env call display l).1.session ≡ l.session
  unfolding ask log
  ask-session call display l = refl

  -- What both refusals do to the session.
  refusal :
      (event : AuditEvent) (shown : OutputEvent) (id content : Str) (l : Loop env)
      → (push_result env id content true (emit env shown (audit env event l))).session
        ≡ (push (tool_result id content true) l.session).0
  refusal event shown id content l =
      push_result-session env id content true (emit env shown (audit env event l))
      ∙ ap (λ s. (push (tool_result id content true) s).0)
          (emit-session env shown (audit env event l) ∙ audit-session env event l)

  denied-session :
      (registry : List ToolImpl) (ctx : ToolContext) (call : ToolUse N) (display : Str)
      (enriched : Value N) (tier : Tier) (l : Loop env)
      → (after_approval env registry ctx call display enriched tier false l).session
        ≡ (push (tool_result call.id (lit "action not permitted") true) l.session).0
  unfolding after_approval
  denied-session registry ctx call display enriched tier l = refusal _ _ _ _ l

  rejected-session :
      (registry : List ToolImpl) (ctx : ToolContext) (call : ToolUse N) (display : Str)
      (enriched : Value N) (l : Loop env)
      → (process_decision env registry ctx call display enriched Decision.reject l).session
        ≡ (push (tool_result call.id (lit "action not permitted") true) l.session).0
  unfolding process_decision
  rejected-session registry ctx call display enriched l = refusal _ _ _ _ l

  -- A rejected call and one that the human denies are the same to the agent: the session that it
  -- goes on with does not tell them apart, whatever the tier, the display text and the input were.
  pub process_decision-opaque :
      (registry : List ToolImpl) (ctx : ToolContext) (call : ToolUse N) (display : Str)
      (enriched : Value N) (tier : Tier) (l : Loop env)
      → (env.request_approval call.name display call.input l.world).0 ≡ false
      → (process_decision env registry ctx call display enriched (Decision.escalate tier) l).session
        ≡ (process_decision env registry ctx call display enriched Decision.reject l).session
  unfolding process_decision
  process_decision-opaque registry ctx call display enriched tier l denied =
      let event =
        event_of env ctx call display AuditDecision.escalate (some (tier_str tier)) none in
      let answered : (ask env call display (audit env event l)).0 ≡ false =
        unfold ask in rw (audit-world event l) denied in
      rw answered (
        denied-session registry ctx call display enriched tier
          (ask env call display (audit env event l)).1
        ∙ ap (λ s. (push (tool_result call.id (lit "action not permitted") true) s).0)
            (ask-session call display (audit env event l) ∙ audit-session env event l)
        ∙ sym (rejected-session registry ctx call display enriched l))
