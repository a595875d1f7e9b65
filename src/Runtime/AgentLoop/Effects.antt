-- ===== src/Runtime/AgentLoop/Effects.antt =====
-- runtime/mod.rs: the effects on the way from one state of the loop to a later one: a condition on every execution
-- among them.
use cherub.Base.{
  ℕ, Bool, true, false, ◌≡◌, refl, sym, ap, ◌∙◌, Option, none, some, List, [], ◌∷◌, ◌++◌,
  append_assoc, append-nil, if◌then◌else◌, All, All-append,
}
use cherub.Base.Bytes.{Str}
use cherub.Base.Result.{Result, ok, err}
use cherub.Json.{Value}
use cherub.Enforcement.Tier.{Tier, CapabilityToken}
use cherub.Enforcement.Decision.{approve_escalation}
use cherub.Providers.{CherubError, Message}
use cherub.Storage.{CallType, inference, summarization, extraction}
use cherub.Tools.Registry.{ToolImpl, find_tool}
use cherub.Runtime.Output.{
  ToolUse, ToolContext, AuditDecision, AuditEvent, OutputEvent, Effect, emitted, audited, asked,
  executed, persisted, completed, usage_recorded, memory_stored, memory_touched, session_replaced,
  Env, tool_output, tool_error,
}
use cherub.Runtime.AgentLoop.{
  Loop, log, emit, audit, event_of, push_result, persist, execute_found, execute, after_execution,
  run_with, after_approval,
}

-- A call of the provider on behalf of the runtime only.
abbrev pub NotInference : CallType → Type 0
NotInference inference = ⊥
NotInference summarization = Unit
NotInference extraction = Unit

-- Q on the executions among the effects, and no inference among them.
abbrev pub Guarded :
    {N : Type 0} → (ToolImpl → Value N → CapabilityToken → Type 0) → Effect N → Type 0
Guarded Q (executed tool params token) = Q tool params token
Guarded Q (emitted event) = Unit
Guarded Q (audited event) = Unit
Guarded Q (asked name display input) = Unit
Guarded Q (persisted id ordinal message) = Unit
Guarded Q (completed call_type system messages) = NotInference call_type
Guarded Q (usage_recorded row) = Unit
Guarded Q (memory_stored memory) = Unit
Guarded Q (memory_touched id) = Unit
Guarded Q (session_replaced id messages) = Unit

module _ {N : Type 0} (env : Env N) (P : Effect N → Type 0) where
  -- What happened on the way from one state to a later one satisfies P.
  abbrev pub HasDone : Loop env → Loop env → Type 0
  HasDone l l' = (done : List (Effect N)) × (l'.effects ≡ l.effects ++ done) × All P done

  pub HasDone-refl : (l : Loop env) → HasDone l l
  HasDone-refl l = ([], sym (append-nil l.effects), tt)

  pub HasDone-trans : (l1 l2 l3 : Loop env) → HasDone l1 l2 → HasDone l2 l3 → HasDone l1 l3
  HasDone-trans l1 l2 l3 (d, e, h) (d', e', h') =
      (d ++ d', e' ∙ ap (λ x. x ++ d') e ∙ append_assoc l1.effects d d', All-append P d d' h h')

  pub log-HasDone : (e : Effect N) (l l' : Loop env) → P e → HasDone l l' → HasDone l (log env e l')
  unfolding log
  log-HasDone e l l' p h = HasDone-trans l l' (log env e l') h (e ∷ [], refl, (p, tt))

module _ {N : Type 0} (env : Env N) (Q : ToolImpl → Value N → CapabilityToken → Type 0) where
  -- From one state to a later one, every execution satisfies Q.
  abbrev pub Does : Loop env → Loop env → Type 0
  Does l l' = HasDone env (Guarded Q) l l'

  pub emit-Does : (event : OutputEvent) (l l' : Loop env) → Does l l' → Does l (emit env event l')
  unfolding emit
  emit-Does event l l' h = log-HasDone env (Guarded Q) (emitted event) l l' tt h

  audit_if :
      (b : Bool) (event : AuditEvent) (l l' : Loop env)
      → Does l l'
      → Does l (if b then log env (audited event) l' else l')
  audit_if true event l l' h = log-HasDone env (Guarded Q) (audited event) l l' tt h
  audit_if false event l l' h = h

  pub audit-Does : (event : AuditEvent) (l l' : Loop env) → Does l l' → Does l (audit env event l')
  unfolding audit
  audit-Does event l l' h = audit_if env.has_audit_store event l l' h

  pub persist-Does :
      (row : Option (ℕ × ℕ × Message N)) (l l' : Loop env) → Does l l' → Does l (persist env row l')
  unfolding persist
  persist-Does none l l' h = h
  persist-Does (some (id, ordinal, message)) l l' h =
      log-HasDone env (Guarded Q) (persisted id ordinal message) l l' tt h

  push_result-Does :
      (id content : Str) (is_error : Bool) (l l' : Loop env)
      → Does l l'
      → Does l (push_result env id content is_error l')
  unfolding push_result
  push_result-Does id content is_error l l' h = persist-Does _ l _ h

  pub refusal-Does :
      (event : AuditEvent) (shown : OutputEvent) (id content : Str) (l l' : Loop env)
      → Does l l'
      → Does l (push_result env id content true (emit env shown (audit env event l')))
  refusal-Does event shown id content l l' h =
      push_result-Does id content true l (emit env shown (audit env event l'))
        (emit-Does shown l (audit env event l') (audit-Does event l l' h))

  pub execute_found-Does :
      (found : Option ToolImpl) (tool : Str) (params : Value N) (token : CapabilityToken)
      (ctx : ToolContext) (l l' : Loop env)
      → ((f : ToolImpl) → found ≡ some f → Q f params token)
      → Does l l'
      → Does l (execute_found env found tool params token ctx l').1
  unfolding execute_found
  execute_found-Does none tool params token ctx l l' q h = h
  execute_found-Does (some found) tool params token ctx l l' q h =
      log-HasDone env (Guarded Q) (executed found params token) l
        (record {
          world = (env.run_tool found params token ctx l'.world).1;
          session = l'.session;
          effects = l'.effects;
        })
        (q found refl) h

  after_execution-Does :
      (ctx : ToolContext) (call : ToolUse N) (display : Str) (decision : AuditDecision)
      (tier : Option Str) (result : Result CherubError Str) (l l' : Loop env)
      → Does l l'
      → Does l (after_execution env ctx call display decision tier result l')
  unfolding after_execution
  after_execution-Does ctx call display decision tier (ok []) l l' h =
      push_result-Does call.id [] false l _ (audit-Does _ l l' h)
  after_execution-Does ctx call display decision tier (ok (b ∷ bs)) l l' h =
      push_result-Does call.id (b ∷ bs) false l _ (
        emit-Does (tool_output (b ∷ bs)) l
          (audit env (event_of env ctx call display decision tier (some false)) l')
          (audit-Does _ l l' h))
  after_execution-Does ctx call display decision tier (err x) l l' h =
      push_result-Does call.id (env.error_text x) true l _ (
        emit-Does (tool_error (env.error_text x)) l
          (audit env (event_of env ctx call display decision tier (some true)) l')
          (audit-Does _ l l' h))

  pub run_with-Does :
      (registry : List ToolImpl) (ctx : ToolContext) (call : ToolUse N) (display : Str)
      (enriched : Value N) (decision : AuditDecision) (token : CapabilityToken) (tier : Str)
      (l l' : Loop env)
      → ((f : ToolImpl) → find_tool registry call.name ≡ some f → Q f enriched token)
      → Does l l'
      → Does l (run_with env registry ctx call display enriched decision token tier l')
  unfolding run_with execute
  run_with-Does registry ctx call display enriched decision token tier l l' q h =
      after_execution-Does ctx call display decision (some tier) _ l _
        (execute_found-Does (find_tool registry call.name) call.name enriched token ctx l l' q h)

  pub after_approval-Does :
      (registry : List ToolImpl) (ctx : ToolContext) (call : ToolUse N) (display : Str)
      (enriched : Value N) (tier : Tier) (answer : Bool) (l l' : Loop env)
      → ((f : ToolImpl)
          → answer ≡ true
          → find_tool registry call.name ≡ some f
          → Q f enriched (approve_escalation tier))
      → Does l l'
      → Does l (after_approval env registry ctx call display enriched tier answer l')
  unfolding after_approval
  after_approval-Does registry ctx call display enriched tier true l l' q h =
      run_with-Does registry ctx call display enriched _ _ _ l _ (λ f. q f refl)
        (emit-Does _ l l' h)
  after_approval-Does registry ctx call display enriched tier false l l' q h =
      refusal-Does _ _ call.id _ l l' h
