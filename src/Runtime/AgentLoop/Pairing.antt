-- ===== src/Runtime/AgentLoop/Pairing.antt =====
-- runtime/mod.rs: the tool results that the session gains from tool calls.
use cherub.Base.{
  ℕ, Bool, true, false, ◌≡◌, refl, sym, ap, ◌∙◌, Option, none, some, List, [], ◌∷◌, ◌++◌, map,
  append_assoc, append-nil, arith,
}
use cherub.Base.Bytes.{Str}
use cherub.Base.Result.{Result, ok, err}
use cherub.Crates.{Crates}
use cherub.Json.{Value}
use cherub.Enforcement.Tier.{Tier, CapabilityToken, as_str as tier_str}
use cherub.Enforcement.Policy
use cherub.Enforcement.Decision.{Decision}
use cherub.Enforcement.Evaluate.{BudgetContext}
use cherub.Providers.{CherubError, Message, tool_result, user, assistant}
use cherub.Runtime.Session.{push}
use cherub.Tools.Registry.{ToolImpl, find_tool}
use cherub.Runtime.Output.{
  ToolUse, ToolContext, AuditDecision, AuditEvent, OutputEvent, Env, tool_output, tool_error,
  tool_approved, tool_allowed, tool_denied, tool_rejected,
}
use cherub.Runtime.AgentLoop.{
  Loop, log, emit, audit, event_of, push_result, persist, execute_found, execute, after_execution,
  run_with, after_approval, ask, process_decision, process_tool_use, process_tool_uses, decision_on,
}

-- The call that a message answers.
abbrev pub answers : {N : Type 0} → Message N → Option Str
answers (user content) = none
answers (assistant content stop) = none
answers (tool_result id content is_error) = some id

module _ {N : Type 0} (env : Env N) where
  -- The session has one more message, a result of the call.
  abbrev pub IsAnswered : Str → Loop env → Loop env → Type 0
  IsAnswered id l l' =
      (content : Str) × (is_error : Bool) × (l'.session
        ≡ (push (tool_result id content is_error) l.session).0)

  pub persist-session :
      (row : Option (ℕ × ℕ × Message N)) (l : Loop env) → (persist env row l).session ≡ l.session
  unfolding persist log
  persist-session none l = refl
  persist-session (some row) l = refl

  pub audit-session : (event : AuditEvent) (l : Loop env) → (audit env event l).session ≡ l.session
  unfolding audit log
  audit-session event l = ground arith

  pub emit-session : (event : OutputEvent) (l : Loop env) → (emit env event l).session ≡ l.session
  unfolding emit log
  emit-session event l = refl

  pub execute_found-session :
      (found : Option ToolImpl) (tool : Str) (params : Value N) (token : CapabilityToken)
      (ctx : ToolContext) (l : Loop env)
      → (execute_found env found tool params token ctx l).1.session ≡ l.session
  unfolding execute_found log
  execute_found-session none tool params token ctx l = refl
  execute_found-session (some found) tool params token ctx l = refl

  pub push_result-session :
      (id content : Str) (is_error : Bool) (l : Loop env)
      → (push_result env id content is_error l).session
        ≡ (push (tool_result id content is_error) l.session).0
  unfolding push_result
  push_result-session id content is_error l = persist-session _ _

  push_result-IsAnswered :
      (id content : Str) (is_error : Bool) (l l' : Loop env)
      → l'.session ≡ l.session
      → IsAnswered id l (push_result env id content is_error l')
  push_result-IsAnswered id content is_error l l' e = (
    content,
    is_error,
    push_result-session id content is_error l'
        ∙ ap (λ s. (push (tool_result id content is_error) s).0) e,
  )

  after_execution-IsAnswered :
      (ctx : ToolContext) (call : ToolUse N) (display : Str) (decision : AuditDecision)
      (tier : Option Str) (result : Result CherubError Str) (l l' : Loop env)
      → l'.session ≡ l.session
      → IsAnswered call.id l (after_execution env ctx call display decision tier result l')
  unfolding after_execution
  after_execution-IsAnswered ctx call display decision tier (ok []) l l' e =
      push_result-IsAnswered call.id [] false l _ (audit-session _ l' ∙ e)
  after_execution-IsAnswered ctx call display decision tier (ok (b ∷ bs)) l l' e =
      push_result-IsAnswered call.id (b ∷ bs) false l _ (
        emit-session (tool_output (b ∷ bs))
          (audit env (event_of env ctx call display decision tier (some false)) l')
        ∙ audit-session _ l'
        ∙ e)
  after_execution-IsAnswered ctx call display decision tier (err x) l l' e =
      push_result-IsAnswered call.id (env.error_text x) true l _ (
        emit-session (tool_error (env.error_text x))
          (audit env (event_of env ctx call display decision tier (some true)) l')
        ∙ audit-session _ l'
        ∙ e)

  run_with-IsAnswered :
      (registry : List ToolImpl) (ctx : ToolContext) (call : ToolUse N) (display : Str)
      (enriched : Value N) (decision : AuditDecision) (token : CapabilityToken) (tier : Str)
      (l l' : Loop env)
      → l'.session ≡ l.session
      → IsAnswered call.id l
          (run_with env registry ctx call display enriched decision token tier l')
  unfolding run_with execute
  run_with-IsAnswered registry ctx call display enriched decision token tier l l' e =
      after_execution-IsAnswered ctx call display decision (some tier) _ l _
        (execute_found-session (find_tool registry call.name) call.name enriched token ctx l' ∙ e)

  after_approval-IsAnswered :
      (registry : List ToolImpl) (ctx : ToolContext) (call : ToolUse N) (display : Str)
      (enriched : Value N) (tier : Tier) (answer : Bool) (l l' : Loop env)
      → l'.session ≡ l.session
      → IsAnswered call.id l (after_approval env registry ctx call display enriched tier answer l')
  unfolding after_approval
  after_approval-IsAnswered registry ctx call display enriched tier true l l' e =
      run_with-IsAnswered registry ctx call display enriched _ _ _ l _
        (emit-session (tool_approved call.name display) l' ∙ e)
  after_approval-IsAnswered registry ctx call display enriched tier false l l' e =
      push_result-IsAnswered call.id _ true l _ (
        emit-session (tool_denied call.name display) (
          audit env (event_of env ctx call display AuditDecision.deny (some (tier_str tier)) none)
            l')
        ∙ audit-session _ l'
        ∙ e)

  pub process_decision-IsAnswered :
      (registry : List ToolImpl) (ctx : ToolContext) (call : ToolUse N) (display : Str)
      (enriched : Value N) (decision : Decision) (l : Loop env)
      → IsAnswered call.id l (process_decision env registry ctx call display enriched decision l)
  unfolding process_decision ask log
  process_decision-IsAnswered registry ctx call display enriched (Decision.allow token) l =
      run_with-IsAnswered registry ctx call display enriched _ token _ l _
        (emit-session (tool_allowed call.name display) l)
  process_decision-IsAnswered registry ctx call display enriched Decision.reject l =
      push_result-IsAnswered call.id _ true l _ (
        emit-session (tool_rejected call.name display)
          (audit env (event_of env ctx call display AuditDecision.reject none none) l)
        ∙ audit-session _ l)
  process_decision-IsAnswered registry ctx call display enriched (Decision.escalate tier) l =
      after_approval-IsAnswered registry ctx call display enriched tier _ l _ (
        audit-session
          (event_of env ctx call display AuditDecision.escalate (some (tier_str tier)) none) l)

-- The ids of calls, in their order.
abbrev pub ids : {N : Type 0} → List (ToolUse N) → List (Option Str)
ids [] = []
ids (call ∷ calls) = some call.id ∷ ids calls

module _ (c : Crates) (env : Env c.Number) where
  -- However the calls of a response are decided, each gets one tool result, under its own id and in
  -- the order of the calls: what the session gains is exactly these results.
  pub process_tool_uses-pairing :
      (registry : List ToolImpl) (policy : Policy.Policy c) (budget : Option (BudgetContext c))
      (ctx : ToolContext) (calls : List (ToolUse c.Number)) (l : Loop env)
      → (results : List (Message c.Number)) × ((process_tool_uses c env registry policy budget ctx
            calls l).session.messages
          ≡ l.session.messages ++ results)
        × (map answers results ≡ ids calls)
  unfolding process_tool_uses process_tool_use push
  process_tool_uses-pairing registry policy budget ctx [] l = ([], sym (append-nil _), refl)
  process_tool_uses-pairing registry policy budget ctx (call ∷ calls) l =
      let (content, is_error, e) =
        process_decision-IsAnswered env registry ctx call _ _
          (decision_on c env registry policy budget call) l in
      let (results, appended, paired) =
        process_tool_uses-pairing registry policy budget ctx calls
          (process_tool_use c env registry policy budget ctx call l) in
      (
        tool_result call.id content is_error ∷ results,
        appended
            ∙ ap (λ s. s.messages ++ results) e
            ∙ append_assoc l.session.messages (tool_result call.id content is_error ∷ []) results,
        ap (λ r. some call.id ∷ r) paired,
      )
