-- ===== src/Runtime/Turn/Steps.antt =====
-- runtime/mod.rs: the iterations of a turn as responses in the conversation.
use cherub.Base.{
  Bool-cases, ℕ, zero, suc, false, ◌≡◌, refl, sym, ap, ◌∙◌, ◌⊎◌, inl, inr, Option, none, some, List,
  [], ◌∷◌, ◌++◌, append-nil, arith, is_empty,
}
use cherub.Base.Bytes.{Str}
use cherub.Base.Result.{Result, ok, err}
use cherub.Crates.{Crates}
use cherub.Providers.{
  CherubError, Message, user, assistant, tool_result, ContentBlock, StopReason, max_tokens,
  end_turn, ApiUsage,
}
use cherub.Storage.{inference}
use cherub.Runtime.Session.{push}
use cherub.Runtime.Output.{completed, Env}
use cherub.Runtime.AgentLoop.{Loop, log}
use cherub.Runtime.AgentLoop.Effects.{Guarded, HasDone-trans}
use cherub.Runtime.Turn.{
  tool_uses, asks_tools, Iteration, finished, continued, proceed, run_tools, accept, after_message,
  note_usage, after_response, infer, iteration, iterate,
}
use cherub.Runtime.Turn.State.{
  Surroundings, Setup, TurnError, Agent, observe, record_any, call_provider,
}
use cherub.Runtime.Turn.Compact.{hard_stop}
use cherub.Runtime.Turn.Sanction.{IsSanctioned, IsResponse}
use cherub.Runtime.Turn.Quiet.{Quiet-refl, record_any-Quiet}
use cherub.Runtime.Turn.Compaction.{Follows, Quiet-Leads, hard_stop-Leads}
use cherub.Runtime.Turn.Rounds.{is_empty→nil, accept-Pushes, run_tools-Answers}
use cherub.Runtime.Turn.Conversation.{
  push_all, broken_off, replied, round, Goes, Does-IsRun, IsRun-trans,
}

module _ (c : Crates) (env : Env c.Number) (s : Surroundings c env) (setup : Setup c) where
  -- An iteration goes on from a state with m responses and n inferences to come, and leaves
  -- `left` of each to those that follow.
  abbrev IsStep : ℕ → ℕ → ℕ → Loop env → Iteration env → Type 0
  IsStep left m n l0 (finished result a) = Goes env (IsSanctioned c env s setup) m n l0 a.loop
  IsStep left m n l0 (continued a) =
      (l' : Loop env)
      → Goes env (IsSanctioned c env s setup) left left a.loop l'
      → Goes env (IsSanctioned c env s setup) m n l0 l'

  pub halts : (m n : ℕ) (l : Loop env) → Goes env (IsSanctioned c env s setup) m n l l
  halts m n l = (broken_off m l.session, ([], sym (append-nil l.effects), tt, omega arith))

  -- A step is seen from an earlier state that leads to where it starts.
  IsStep-back :
      (left m n : ℕ) (l0 l : Loop env) (it : Iteration env)
      → Follows c env s setup l0 l
      → IsStep left m n l it
      → IsStep left m n l0 it
  IsStep-back left m n l0 l (finished result a) f h = f m n a.loop h
  IsStep-back left m n l0 l (continued a) f h = λ l' g. f m n l' (h l' g)

  replies :
      (left : ℕ) (content : List (ContentBlock c.Number)) (stop_reason : StopReason) (l : Loop env)
      → (asks_tools stop_reason ≡ false) ⊎ (tool_uses content ≡ [])
      → Goes env
          (IsSanctioned c env s setup)
          (suc left)
          left
          l
          (accept c env s setup content stop_reason l)
  replies left content stop_reason l ends =
      let (e, d) = accept-Pushes c env s setup content stop_reason l in
      let (done, grown, allowed, none_inferred) =
        Does-IsRun env (IsSanctioned c env s setup) l (accept c env s setup content stop_reason l)
          d in
      (
        rw e (replied left l.session content stop_reason ends),
        (done, grown, allowed, omega (arith, none_inferred)),
      )

  rounds :
      (left : ℕ) (content : List (ContentBlock c.Number)) (l l' : Loop env)
      → IsResponse c env s setup content
      → Goes env
          (IsSanctioned c env s setup)
          left
          left
          (run_tools c env s setup left
            (tool_uses content)
            (accept c env s setup content StopReason.tool_use l))
          l'
      → Goes env (IsSanctioned c env s setup) (suc left) left l l'
  rounds left content l l' response (t, run) =
      let Q = IsSanctioned c env s setup in
      let l1 = accept c env s setup content StopReason.tool_use l in
      let l2 = run_tools c env s setup left (tool_uses content) l1 in
      let (e, d) = accept-Pushes c env s setup content StopReason.tool_use l in
      let (results, pushed, paired, done) =
        run_tools-Answers c env s setup left content l1 response in
      let here : l2.session
          ≡ push_all results (push (assistant content StopReason.tool_use) l.session).0 =
        pushed ∙ ap (λ x. push_all results x) e in
      (
        round left l.session l'.session content results paired (rw (← here) t),
        IsRun-trans env Q 0 left left l l2 l' (omega arith)
            (Does-IsRun env Q l l2 (HasDone-trans env (Guarded Q) l l1 l2 d done)) run,
      )

  after_message-IsStep :
      (left : ℕ) (message : Message c.Number) (a : Agent env)
      → ((content : List (ContentBlock c.Number)) (stop_reason : StopReason)
          → message ≡ assistant content stop_reason
          → IsResponse c env s setup content)
      → IsStep left (suc left) left a.loop (after_message c env s setup left message a)
  unfolding after_message
  after_message-IsStep left (assistant content end_turn) a response =
      replies left content end_turn a.loop (inl refl)
  after_message-IsStep left (assistant content max_tokens) a response =
      replies left content max_tokens a.loop (inl refl)
  after_message-IsStep left (assistant content StopReason.tool_use) a response =
      elim (Bool-cases (is_empty (tool_uses content))) [
        | inl none_asked ↦ rw none_asked (
            replies left content StopReason.tool_use a.loop
              (inr (is_empty→nil (tool_uses content) none_asked)))
        | inr asked ↦
            rw asked
              (λ l' g. rounds left content a.loop l' (response content StopReason.tool_use refl) g)
      ]
  after_message-IsStep left (user content) a response = halts (suc left) left a.loop
  after_message-IsStep left (tool_result id content is_error) a response =
      halts (suc left) left a.loop

  note_usage-Leads :
      (usage : Option ApiUsage) (l : Loop env) (last : Option ApiUsage)
      → Follows c env s setup l (note_usage c env s setup usage l last).loop
  unfolding note_usage
  note_usage-Leads none l last = λ m n l' h. h
  note_usage-Leads (some usage) l last =
      Quiet-Leads c env s setup l (record_any c env s (some usage) inference l)
        (record_any-Quiet c env s setup (some usage) inference l l (Quiet-refl c env s setup l))

  -- The provider gave this response to an inference.
  abbrev pub IsAnswer : Result CherubError (Message c.Number × Option ApiUsage) → Type 0
  IsAnswer response =
      (system : Str) × (messages : List (Message c.Number)) × (world : env.World) × ((s.complete
          system messages setup.tool_definitions world).0
        ≡ response)

  after_response-IsStep :
      (left : ℕ) (response : Result CherubError (Message c.Number × Option ApiUsage)) (l : Loop env)
      (last : Option ApiUsage)
      → IsAnswer response
      → IsStep left (suc left) left l (after_response c env s setup left response l last)
  unfolding after_response
  after_response-IsStep left (err e) l last answer = halts (suc left) left l
  after_response-IsStep left (ok (message, usage)) l last (system, messages, world, e) =
      let noted = note_usage c env s setup usage l last in
      IsStep-back left (suc left) left l noted.loop (after_message c env s setup left message noted)
        (note_usage-Leads usage l last)
        (after_message-IsStep left message noted (λ content stop_reason same.
          (system, messages, world, stop_reason, usage, e ∙ ap (λ m. ok (m, usage)) same)))

  -- One inference more, before a step that counts the inferences after it.
  IsStep-inferred :
      (left : ℕ) (system : Str) (l0 l : Loop env) (it : Iteration env)
      → l.session ≡ l0.session
      → l.effects ≡ l0.effects ++ completed inference system l0.session.messages ∷ []
      → IsStep left (suc left) left l it
      → IsStep left (suc left) (suc left) l0 it
  IsStep-inferred left system l0 l (finished result a) e grown (t, run) = (
    rw (← e) t,
    IsRun-trans env (IsSanctioned c env s setup) 1 left (suc left) l0 l a.loop (omega arith)
        (completed inference system l0.session.messages ∷ [], grown, (tt, tt), omega arith) run,
  )
  IsStep-inferred left system l0 l (continued a) e grown h = λ l' g.
      let (t, run) = h l' g in
      (
        rw (← e) t,
        IsRun-trans env (IsSanctioned c env s setup) 1 left (suc left) l0 l l' (omega arith)
            (completed inference system l0.session.messages ∷ [], grown, (tt, tt), omega arith) run,
      )

  infer-IsStep :
      (left : ℕ) (system : Str) (checked : Result TurnError Unit) (a : Agent env)
      → IsStep left (suc left) (suc left) a.loop (infer c env s setup left system checked a)
  unfolding infer call_provider observe log
  infer-IsStep left system (err e) a = halts (suc left) (suc left) a.loop
  infer-IsStep left system (ok _) a =
      let messages = a.loop.session.messages in
      let (response, l) =
        call_provider c env s inference system messages setup.tool_definitions a.loop in
      IsStep-inferred left system a.loop l
        (after_response c env s setup left response l a.last_usage) refl refl
        (after_response-IsStep left response l a.last_usage (system, messages, a.loop.world, refl))

  iteration-IsStep :
      (left : ℕ) (system : Str) (a : Agent env)
      → IsStep left (suc left) (suc left) a.loop (iteration c env s setup left system a)
  unfolding iteration
  iteration-IsStep left system a =
      let (checked, a1) = hard_stop c env s setup system a in
      IsStep-back left (suc left) (suc left) a.loop a1.loop
        (infer c env s setup left system checked a1) (hard_stop-Leads c env s setup system a)
        (infer-IsStep left system checked a1)

  proceed-Goes :
      (left m n : ℕ) (l0 : Loop env) (further : Agent env → Result TurnError Unit × Agent env)
      (it : Iteration env)
      → IsStep left m n l0 it
      → ((a : Agent env)
          → Goes env (IsSanctioned c env s setup) left left a.loop (further a).1.loop)
      → Goes env (IsSanctioned c env s setup) m n l0 (proceed further it).1.loop
  proceed-Goes left m n l0 further (finished result a) h f = h
  proceed-Goes left m n l0 further (continued a) h f = h (further a).1.loop (f a)

  pub iterate-Goes :
      (left : ℕ) (system : Str) (a : Agent env)
      → Goes env
          (IsSanctioned c env s setup)
          left
          left
          a.loop
          (iterate c env s setup left system a).1.loop
  unfolding iterate
  iterate-Goes zero system a = halts 0 0 a.loop
  iterate-Goes (suc left) system a =
      proceed-Goes left (suc left) (suc left) a.loop
        (λ next. iterate c env s setup left system next) (iteration c env s setup left system a)
        (iteration-IsStep left system a) (λ next. iterate-Goes left system next)
