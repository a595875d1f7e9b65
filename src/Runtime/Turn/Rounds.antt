-- ===== src/Runtime/Turn/Rounds.antt =====
-- runtime/mod.rs: a response of the provider with its tool calls, and what it does to the
-- conversation.
use cherub.Base.{
  ℕ, zero, suc, Bool, true, false, ◌≡◌, refl, ap, ◌∙◌, inl, Option, none, some, List, [], ◌∷◌, map,
  All-weaken, is_empty,
}
use cherub.Crates.{Crates}
use cherub.Enforcement.Policy
use cherub.Enforcement.Evaluate.{BudgetContext}
use cherub.Providers.{
  Message, assistant, tool_result, ContentBlock, StopReason, max_tokens, end_turn,
}
use cherub.Tools.Registry.{ToolImpl}
use cherub.Runtime.Session.{push, persist_last}
use cherub.Runtime.Output.{OutputEvent, ToolUse, ToolContext, Env}
use cherub.Runtime.AgentLoop.{Loop, process_tool_use, process_tool_uses, decision_on}
use cherub.Runtime.AgentLoop.Pairing.{answers, ids, persist-session, process_decision-IsAnswered}
use cherub.Runtime.AgentLoop.Effects.{Guarded, Does, HasDone-trans, persist-Does}
use cherub.Runtime.AgentLoop.Gating.{IsAuthorized, Guarded-weaken, process_tool_uses-gated}
use cherub.Runtime.Turn.{
  tool_uses, emit_texts, warn_truncated, warn_last, cost_for, budget_for, run_tools, accept,
}
use cherub.Runtime.Turn.State.{Surroundings, Setup, push_message}
use cherub.Runtime.Turn.Sanction.{IsSanctioned, IsResponse}
use cherub.Runtime.Turn.Quiet.{Quiet, Quiet-refl, emit-Quiet, observe-Quiet}
use cherub.Runtime.Turn.Conversation.{push_all}

pub is_empty→nil : {A : Type 0} (xs : List A) → is_empty xs ≡ true → xs ≡ []
is_empty→nil [] h = refl
is_empty→nil (x ∷ xs) h = cc

module _ (c : Crates) (env : Env c.Number) (s : Surroundings c env) (setup : Setup c) where
  -- From one state to a later one the session has one more message, and nothing is executed without
  -- sanction.
  abbrev pub Pushes : Message c.Number → Loop env → Loop env → Type 0
  Pushes message l0 l =
      (l.session ≡ (push message l0.session).0) × Does env (IsSanctioned c env s setup) l0 l

  pub push_message-Pushes :
      (message : Message c.Number) (l0 l : Loop env)
      → Quiet c env s setup l0 l
      → Pushes message l0 (push_message env message l)
  unfolding push_message
  push_message-Pushes message l0 l (e, d) =
      let session = (push message l.session).0 in
      let l1 : Loop env = record { world = l.world; session = session; effects = l.effects } in
      (
        persist-session env (persist_last session) l1 ∙ ap (λ x. (push message x).0) e,
        persist-Does env (IsSanctioned c env s setup) (persist_last session) l0 l1 d,
      )

  emit_texts-Quiet :
      (content : List (ContentBlock c.Number)) (l0 l : Loop env)
      → Quiet c env s setup l0 l
      → Quiet c env s setup l0 (emit_texts env content l)
  unfolding emit_texts
  emit_texts-Quiet [] l0 l h = h
  emit_texts-Quiet (ContentBlock.text [] ∷ content) l0 l h = emit_texts-Quiet content l0 l h
  emit_texts-Quiet (ContentBlock.text (b ∷ bs) ∷ content) l0 l h =
      emit_texts-Quiet content l0 _ (emit-Quiet c env s setup (OutputEvent.text (b ∷ bs)) l0 l h)
  emit_texts-Quiet (ContentBlock.tool_use id name input ∷ content) l0 l h =
      emit_texts-Quiet content l0 l h

  warn_truncated-Quiet :
      (stop_reason : StopReason) (l0 l : Loop env)
      → Quiet c env s setup l0 l
      → Quiet c env s setup l0 (warn_truncated env stop_reason l)
  unfolding warn_truncated
  warn_truncated-Quiet max_tokens l0 l h = emit-Quiet c env s setup _ l0 l h
  warn_truncated-Quiet end_turn l0 l h = h
  warn_truncated-Quiet StopReason.tool_use l0 l h = h

  pub accept-Pushes :
      (content : List (ContentBlock c.Number)) (stop_reason : StopReason) (l : Loop env)
      → Pushes (assistant content stop_reason) l (accept c env s setup content stop_reason l)
  unfolding accept
  accept-Pushes content stop_reason l = push_message-Pushes (assistant content stop_reason) l _ (
      warn_truncated-Quiet stop_reason l _
        (emit_texts-Quiet content l l (Quiet-refl c env s setup l)))

  cost_for-Quiet :
      {L : Type 0} (limit : Option L) (read : env.World → Option c.F64 × env.World)
      (l0 l : Loop env)
      → Quiet c env s setup l0 l
      → Quiet c env s setup l0 (cost_for c env s setup limit read l).1
  unfolding cost_for
  cost_for-Quiet none read l0 l h = h
  cost_for-Quiet (some limit) read l0 l h = observe-Quiet c env s setup read l0 l h

  budget_for-Quiet :
      (has_store : Bool) (budget : Option (Policy.CompiledBudget c)) (l0 l : Loop env)
      → Quiet c env s setup l0 l
      → Quiet c env s setup l0 (budget_for c env s setup has_store budget l).1
  unfolding budget_for
  budget_for-Quiet false budget l0 l h = h
  budget_for-Quiet true none l0 l h = h
  budget_for-Quiet true (some budget) l0 l h =
      let first = cost_for-Quiet budget.session_limit_usd (s.session_cost l.session.id) l0 l h in
      cost_for-Quiet budget.daily_limit_usd _ l0 _ first

  warn_last-Quiet :
      (left : ℕ) (l0 l : Loop env)
      → Quiet c env s setup l0 l
      → Quiet c env s setup l0 (warn_last env left l)
  unfolding warn_last
  warn_last-Quiet zero l0 l h = emit-Quiet c env s setup _ l0 l h
  warn_last-Quiet (suc left) l0 l h = h

  -- Each call is answered by one push.
  process_tool_uses-pushes :
      (registry : List ToolImpl) (policy : Policy.Policy c) (budget : Option (BudgetContext c))
      (ctx : ToolContext) (calls : List (ToolUse c.Number)) (l : Loop env)
      → (results : List (Message c.Number)) × ((process_tool_uses c env registry policy budget ctx
            calls l).session
          ≡ push_all results l.session)
        × (map answers results ≡ ids calls)
  unfolding process_tool_uses process_tool_use
  process_tool_uses-pushes registry policy budget ctx [] l = ([], refl, refl)
  process_tool_uses-pushes registry policy budget ctx (call ∷ calls) l =
      let (content, is_error, e) =
        process_decision-IsAnswered env registry ctx call _ _
          (decision_on c env registry policy budget call) l in
      let (results, pushed, paired) =
        process_tool_uses-pushes registry policy budget ctx calls
          (process_tool_use c env registry policy budget ctx call l) in
      (
        tool_result call.id content is_error ∷ results,
        pushed ∙ ap (λ x. push_all results x) e,
        ap (λ r. some call.id ∷ r) paired,
      )

  -- From one state to a later one the calls of the response are answered in their order.
  abbrev pub Answers : List (ToolUse c.Number) → Loop env → Loop env → Type 0
  Answers calls l0 l =
      (results : List (Message c.Number)) × (l.session ≡ push_all results l0.session)
      × (map answers results ≡ ids calls)
      × Does env (IsSanctioned c env s setup) l0 l

  pub run_tools-Answers :
      (left : ℕ) (content : List (ContentBlock c.Number)) (l : Loop env)
      → IsResponse c env s setup content
      → Answers (tool_uses content) l (run_tools c env s setup left (tool_uses content) l)
  unfolding run_tools
  run_tools-Answers left content l response =
      let Q = IsSanctioned c env s setup in
      let ctx : ToolContext = record {
        user_id = l.session.user_id;
        session_id = l.session.id;
        turn_number = l.session.next_ordinal;
      } in
      let (budget, l1) = budget_for c env s setup s.has_cost_store setup.policy.budget l in
      let read =
        budget_for-Quiet s.has_cost_store setup.policy.budget l l (Quiet-refl c env s setup l) in
      let l2 =
        process_tool_uses c env setup.registry setup.policy budget ctx (tool_uses content) l1 in
      let (results, pushed, paired) =
        process_tool_uses-pushes setup.registry setup.policy budget ctx (tool_uses content) l1 in
      let (done, e, h) =
        process_tool_uses-gated c env setup.registry setup.policy budget ctx (tool_uses content)
          l1 in
      let R = IsAuthorized c env setup.registry setup.policy budget (tool_uses content) in
      let ran : Does env Q l1 l2 = (
        done,
        e,
        All-weaken (Guarded R) (Guarded Q) done
            (Guarded-weaken R Q (λ tool params token q. inl (content, budget, response, q))) h,
      ) in
      let warned = warn_last-Quiet left l2 l2 (Quiet-refl c env s setup l2) in
      (
        results,
        warned.0 ∙ pushed ∙ ap (λ x. push_all results x) read.0,
        paired,
        HasDone-trans env (Guarded Q) l l1 (warn_last env left l2) read.1
            (HasDone-trans env (Guarded Q) l1 l2 (warn_last env left l2) ran warned.1),
      )
