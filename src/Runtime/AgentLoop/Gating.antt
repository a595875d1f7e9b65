-- ===== src/Runtime/AgentLoop/Gating.antt =====
-- runtime/mod.rs: what the executions of tools rest on.
use mathlib.Core.List.{Mem, mem-cons}
use mathlib.Core.Logic.Or
use cherub.Base.{true, ◌≡◌, refl, ◌⊎◌, inl, inr, Option, none, some, List, [], ◌∷◌, All-weaken}
use cherub.Base.Bytes.{Str}
use cherub.Crates.{Crates}
use cherub.Json.{Value}
use cherub.Enforcement.Tier.{Tier, CapabilityToken, as_str as tier_str}
use cherub.Enforcement.Policy
use cherub.Enforcement.Decision.{Decision, approve_escalation}
use cherub.Enforcement.Evaluate.{BudgetContext}
use cherub.Tools.Registry.{ToolImpl, find_tool, enrich_params}
use cherub.Runtime.Output.{
  ToolUse, ToolContext, AuditDecision, Effect, emitted, audited, asked, executed, persisted,
  completed, usage_recorded, memory_stored, memory_touched, session_replaced, Env,
}
use cherub.Runtime.AgentLoop.{
  Loop, audit, event_of, ask, process_decision, process_tool_use, process_tool_uses, display_str,
  decision_on,
}
use cherub.Runtime.AgentLoop.Effects.{
  Guarded, HasDone, Does, HasDone-refl, HasDone-trans, log-HasDone, emit-Does, audit-Does,
  refusal-Does, run_with-Does, after_approval-Does,
}

module _ {N : Type 0} (env : Env N) where
  -- A token that a decision gives: that of an allowed call, or the one for the tier of an escalated
  -- call to which the human said yes.
  abbrev pub Granted : ToolUse N → Str → Decision → CapabilityToken → Type 0
  Granted call display decision token =
      (decision ≡ Decision.allow token)
      ⊎ ((tier : Tier) × (world : env.World) × (decision ≡ Decision.escalate tier)
          × (token ≡ approve_escalation tier)
          × ((env.request_approval call.name display call.input world).0 ≡ true))

  -- The execution is of the call's own tool, on its enriched input, with a granted token.
  abbrev pub IsGranted :
      List ToolImpl
      → ToolUse N
      → Str
      → Value N
      → Decision
      → ToolImpl
      → Value N
      → CapabilityToken
      → Type 0
  IsGranted registry call display enriched decision tool params token =
      (find_tool registry call.name ≡ some tool)
      × (params ≡ enriched)
      × Granted call display decision token

  process_decision-Does :
      (registry : List ToolImpl) (ctx : ToolContext) (call : ToolUse N) (display : Str)
      (enriched : Value N) (decision : Decision) (l : Loop env)
      → Does env
          (IsGranted registry call display enriched decision)
          l
          (process_decision env registry ctx call display enriched decision l)
  unfolding process_decision ask
  process_decision-Does registry ctx call display enriched (Decision.allow token) l =
      let Q = IsGranted registry call display enriched (Decision.allow token) in
      run_with-Does env Q registry ctx call display enriched _ token _ l _
        (λ f e. (e, refl, inl refl)) (emit-Does env Q _ l l (HasDone-refl env (Guarded Q) l))
  process_decision-Does registry ctx call display enriched Decision.reject l =
      let Q = IsGranted registry call display enriched Decision.reject in
      refusal-Does env Q _ _ call.id _ l l (HasDone-refl env (Guarded Q) l)
  process_decision-Does registry ctx call display enriched (Decision.escalate tier) l =
      let Q = IsGranted registry call display enriched (Decision.escalate tier) in
      let event =
        event_of env ctx call display AuditDecision.escalate (some (tier_str tier)) none in
      after_approval-Does env Q registry ctx call display enriched tier _ l _
        (λ f yes e. (e, refl, inr (tier, (audit env event l).world, refl, refl, yes)))
        (log-HasDone env (Guarded Q) (asked call.name display call.input) l
          (record {
            world = (env.request_approval call.name display call.input (audit env event l).world).1;
            session = (audit env event l).session;
            effects = (audit env event l).effects;
          })
          tt (audit-Does env Q event l l (HasDone-refl env (Guarded Q) l)))

module _ {N : Type 0} (Q R : ToolImpl → Value N → CapabilityToken → Type 0) where
  pub Guarded-weaken :
      ((tool : ToolImpl) (params : Value N) (token : CapabilityToken)
        → Q tool params token
        → R tool params token)
      → (e : Effect N) → Guarded Q e
      → Guarded R e
  Guarded-weaken f (executed tool params token) q = f tool params token q
  Guarded-weaken f (emitted event) q = q
  Guarded-weaken f (audited event) q = q
  Guarded-weaken f (asked name display input) q = q
  Guarded-weaken f (persisted id ordinal message) q = q
  Guarded-weaken f (completed call_type system messages) q = q
  Guarded-weaken f (usage_recorded row) q = q
  Guarded-weaken f (memory_stored memory) q = q
  Guarded-weaken f (memory_touched id) q = q
  Guarded-weaken f (session_replaced id messages) q = q

module _ (c : Crates) (env : Env c.Number) where
  -- An execution on behalf of one of the calls, as the policy's decision on that call or the human
  -- grants it.
  abbrev pub IsAuthorized :
      List ToolImpl
      → Policy.Policy c
      → Option (BudgetContext c)
      → List (ToolUse c.Number)
      → ToolImpl
      → Value c.Number
      → CapabilityToken
      → Type 0
  IsAuthorized registry policy budget calls tool params token =
      (call : ToolUse c.Number) × Mem call calls
      × IsGranted env registry call (display_str (enrich_params registry call.name call.input))
          (enrich_params registry call.name call.input)
          (decision_on c env registry policy budget call) tool params token

  -- Whatever the calls of a response are, the effects that processing them adds execute a tool only
  -- for one of the calls: the tool that the call names, on the call's enriched input, and either
  -- with the token of the policy's decision to allow it, or, where the decision is to escalate,
  -- with the token for the escalated tier after the human's approval; and none of these effects is
  -- an inference.
  pub process_tool_uses-gated :
      (registry : List ToolImpl) (policy : Policy.Policy c) (budget : Option (BudgetContext c))
      (ctx : ToolContext) (calls : List (ToolUse c.Number)) (l : Loop env)
      → HasDone env
          (Guarded (IsAuthorized registry policy budget calls))
          l
          (process_tool_uses c env registry policy budget ctx calls l)
  unfolding process_tool_uses process_tool_use
  process_tool_uses-gated registry policy budget ctx [] l =
      HasDone-refl env (Guarded (IsAuthorized registry policy budget [])) l
  process_tool_uses-gated registry policy budget ctx (call ∷ calls) l =
      let enriched = enrich_params registry call.name call.input in
      let decision = decision_on c env registry policy budget call in
      let next = process_tool_use c env registry policy budget ctx call l in
      let Q = IsGranted env registry call (display_str enriched) enriched decision in
      let R = IsAuthorized registry policy budget (call ∷ calls) in
      let S = IsAuthorized registry policy budget calls in
      let (d, e, h) =
        process_decision-Does env registry ctx call (display_str enriched) enriched decision l in
      let (d', e', h') = process_tool_uses-gated registry policy budget ctx calls next in
      HasDone-trans env (Guarded R) l next
        (process_tool_uses c env registry policy budget ctx calls next)
        (
          d,
          e,
          All-weaken (Guarded Q) (Guarded R) d
              (Guarded-weaken Q R (λ tool params token q. (call, mem-cons.1 (Or.inl refl), q))) h,
        )
        (
          d',
          e',
          All-weaken (Guarded S) (Guarded R) d'
              (Guarded-weaken S R
                (λ tool params token (other, m, q). (other, mem-cons.1 (Or.inr m), q)))
              h',
        )
