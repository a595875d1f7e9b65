-- ===== src/Runtime/Turn/Ends.antt =====
-- runtime/mod.rs, `run_turn`: how a turn ends.
use cherub.Base.{
  Bool-cases, ℕ, zero, suc, Bool, true, false, ◌≡◌, refl, ◌⊎◌, inl, inr, Option, List, arith,
  if◌then◌else◌, ltb, length, is_empty,
}
use cherub.Base.Bytes.{Str, lit}
use cherub.Base.Result.{Result, ok, err}
use cherub.Crates.{Crates}
use cherub.Providers.{
  CherubError, provider, Message, user, assistant, tool_result, UserContent, ContentBlock,
  StopReason, max_tokens, end_turn, ApiUsage,
}
use cherub.Runtime.Session.{Split, split_for_compaction}
use cherub.Runtime.Tokens.{context_window_size}
use cherub.Runtime.Output.{Env}
use cherub.Runtime.AgentLoop.{Loop}
use cherub.Runtime.Turn.{
  tool_uses, Iteration, finished, continued, proceed, after_message, note_usage, after_response,
  infer, iteration, iterate, turn_loop, begin_turn, run_turn, max_iterations,
}
use cherub.Runtime.Turn.State.{
  Surroundings, Setup, TurnError, failed, panicked, Agent, observe, call_provider,
}
use cherub.Runtime.Turn.Flush.{flush_to_memory, summarize, summary_response, summary_of}
use cherub.Runtime.Turn.Compact.{
  compaction_preserve_recent, compaction_min_messages, compaction_threshold, hard_stop_limit,
  input_tokens, compact_with, compact_split, maybe_compact, hard_stop,
}
use cherub.Runtime.Session.Compaction.{IsSplit, is_refused, is_cut, split_for_compaction-IsSplit}

abbrev pub is_assistant : {N : Type 0} → Message N → Bool
is_assistant (assistant content stop_reason) = true
is_assistant (user content) = false
is_assistant (tool_result id content is_error) = false

-- The answer of the provider is a reason for the error.
abbrev pub IsReason :
    {N : Type 0} → CherubError → Result CherubError (Message N × Option ApiUsage) → Type 0
IsReason e (err e') = e ≡ e'
IsReason e (ok (message, usage)) =
    (is_assistant message ≡ false)
    × ((e ≡ provider (lit "unexpected message type"))
        ⊎ (e ≡ provider (lit "unexpected response type from summarization")))

module _ (c : Crates) (env : Env c.Number) (s : Surroundings c env) (setup : Setup c) where
  abbrev pub IsProviderFailure : CherubError → Type 0
  IsProviderFailure e =
      (system : Str) × (messages : List (Message c.Number)) × (tools : _) × (world : env.World)
      × IsReason e (s.complete system messages tools world).0

  -- Every error is the provider's.
  abbrev Blames : {A : Type 0} → Result CherubError A → Type 0
  Blames (ok a) = Unit
  Blames (err e) = IsProviderFailure e

  -- A turn ends well, or with an error of the provider; never with a panic.
  abbrev pub Ends : Result TurnError Unit → Type 0
  Ends (ok _) = Unit
  Ends (err (failed e)) = IsProviderFailure e
  Ends (err panicked) = ⊥

  abbrev StepEnds : Iteration env → Type 0
  StepEnds (finished result a) = Ends result
  StepEnds (continued a) = Unit

  abbrev IsGiven : Result CherubError (Message c.Number × Option ApiUsage) → Type 0
  IsGiven response =
      (system : Str) × (messages : List (Message c.Number)) × (tools : _) × (world : env.World)
      × ((s.complete system messages tools world).0 ≡ response)

  fails :
      (e : CherubError) (response : Result CherubError (Message c.Number × Option ApiUsage))
      → IsGiven response
      → IsReason e response
      → IsProviderFailure e
  fails e response (system, messages, tools, world, given) reason =
      (system, messages, tools, world, rw given reason)

  summary_response-Blames :
      (response : Result CherubError (Message c.Number × Option ApiUsage)) (l : Loop env)
      → IsGiven response
      → Blames (summary_response c env s setup response l).0
  unfolding summary_response summary_of
  summary_response-Blames (err e) l given = fails e (err e) given refl
  summary_response-Blames (ok (assistant content stop_reason, usage)) l given = tt
  summary_response-Blames (ok (user content, usage)) l given =
      fails _ (ok (user content, usage)) given (refl, inr refl)
  summary_response-Blames (ok (tool_result id content is_error, usage)) l given =
      fails _ (ok (tool_result id content is_error, usage)) given (refl, inr refl)

  summarize-Blames :
      (messages : List (Message c.Number)) (l : Loop env)
      → Blames (summarize c env s setup messages l).0
  unfolding summarize call_provider observe
  summarize-Blames messages l = summary_response-Blames _ _ (_, _, _, l.world, refl)

  compact_with-Ends :
      (summary : Result CherubError Str) (recent : List (Message c.Number)) (a : Agent env)
      → Blames summary
      → Ends (compact_with c env s setup summary recent a).0
  unfolding compact_with
  compact_with-Ends (err e) recent a h = h
  compact_with-Ends (ok summary) recent a h = tt

  compact_split-Ends :
      (cut : Split c.Number) (system : Str) (a : Agent env)
      → IsSplit a.loop.session.messages compaction_preserve_recent cut
      → Ends (compact_split c env s setup cut system a).0
  unfolding compact_split
  compact_split-Ends cut system a (is_refused h) = tt
  compact_split-Ends cut system a (is_cut {old} {recent} long h) =
      let flushed = flush_to_memory c env s setup old system a.loop in
      compact_with-Ends (summarize c env s setup old flushed).0 recent _
        (summarize-Blames old flushed)

  if-Ends :
      (b : Bool) (p q : Result TurnError Unit × Agent env)
      → Ends p.0
      → Ends q.0
      → Ends (if b then p else q).0
  if-Ends true p q hp hq = hp
  if-Ends false p q hp hq = hq

  maybe_compact-Ends :
      (system : Str) (a : Agent env) → Ends (maybe_compact c env s setup system a).0
  unfolding maybe_compact
  maybe_compact-Ends system a =
      if-Ends (ltb (length a.loop.session.messages) compaction_min_messages) (ok tt, a) _ tt
        (if-Ends
          (ltb (input_tokens c env s setup system a)
            (compaction_threshold (context_window_size s.model_name)))
          (ok tt, a) _ tt
          (compact_split-Ends (split_for_compaction a.loop.session compaction_preserve_recent)
            system a
            (split_for_compaction-IsSplit a.loop.session compaction_preserve_recent (omega arith))))

  hard_stop-Ends : (system : Str) (a : Agent env) → Ends (hard_stop c env s setup system a).0
  unfolding hard_stop
  hard_stop-Ends system a =
      if-Ends (ltb (length a.loop.session.messages) compaction_min_messages) (ok tt, a) _ tt
        (if-Ends
          (ltb (hard_stop_limit (context_window_size s.model_name))
            (input_tokens c env s setup system a))
          (maybe_compact c env s setup system a) (ok tt, a) (maybe_compact-Ends system a) tt)

  after_message-Ends :
      (left : ℕ) (message : Message c.Number) (usage : Option ApiUsage) (a : Agent env)
      → IsGiven (ok (message, usage))
      → StepEnds (after_message c env s setup left message a)
  unfolding after_message
  after_message-Ends left (assistant content end_turn) usage a given = tt
  after_message-Ends left (assistant content max_tokens) usage a given = tt
  after_message-Ends left (assistant content StopReason.tool_use) usage a given =
      elim (Bool-cases (is_empty (tool_uses content))) [
        | inl none_asked ↦ rw none_asked tt
        | inr asked ↦ rw asked tt
      ]
  after_message-Ends left (user content) usage a given =
      fails _ (ok (user content, usage)) given (refl, inl refl)
  after_message-Ends left (tool_result id content is_error) usage a given =
      fails _ (ok (tool_result id content is_error, usage)) given (refl, inl refl)

  after_response-Ends :
      (left : ℕ) (response : Result CherubError (Message c.Number × Option ApiUsage)) (l : Loop env)
      (last : Option ApiUsage)
      → IsGiven response
      → StepEnds (after_response c env s setup left response l last)
  unfolding after_response
  after_response-Ends left (err e) l last given = fails e (err e) given refl
  after_response-Ends left (ok (message, usage)) l last given =
      after_message-Ends left message usage (note_usage c env s setup usage l last) given

  infer-Ends :
      (left : ℕ) (system : Str) (checked : Result TurnError Unit) (a : Agent env)
      → Ends checked
      → StepEnds (infer c env s setup left system checked a)
  unfolding infer call_provider observe
  infer-Ends left system (err e) a h = h
  infer-Ends left system (ok _) a h =
      after_response-Ends left _ _ a.last_usage
        (system, a.loop.session.messages, setup.tool_definitions, a.loop.world, refl)

  iteration-Ends :
      (left : ℕ) (system : Str) (a : Agent env) → StepEnds (iteration c env s setup left system a)
  unfolding iteration
  iteration-Ends left system a =
      let (checked, a1) = hard_stop c env s setup system a in
      infer-Ends left system checked a1 (hard_stop-Ends system a)

  proceed-Ends :
      (further : Agent env → Result TurnError Unit × Agent env) (it : Iteration env)
      → StepEnds it
      → ((a : Agent env) → Ends (further a).0)
      → Ends (proceed further it).0
  proceed-Ends further (finished result a) h f = h
  proceed-Ends further (continued a) h f = f a

  iterate-Ends :
      (left : ℕ) (system : Str) (a : Agent env) → Ends (iterate c env s setup left system a).0
  unfolding iterate
  iterate-Ends zero system a = tt
  iterate-Ends (suc left) system a =
      proceed-Ends (λ next. iterate c env s setup left system next)
        (iteration c env s setup left system a) (iteration-Ends left system a)
        (λ next. iterate-Ends left system next)

  turn_loop-Ends :
      (system : Str) (r : Result TurnError Unit × Agent env)
      → Ends r.0
      → Ends (turn_loop c env s setup system r).0
  unfolding turn_loop
  turn_loop-Ends system (err e, a) h = h
  turn_loop-Ends system (ok _, a) h = iterate-Ends max_iterations system a

  -- Every turn comes to an end, without a panic, and if it ends with an error then this is an error
  -- that the provider returns, or the error for an answer of the provider that is no assistant's
  -- message.
  pub run_turn-Ends :
      (content : List UserContent) (a : Agent env) → Ends (run_turn c env s setup content a).0
  unfolding run_turn
  run_turn-Ends content a =
      let (system, a1) = begin_turn c env s setup content a in
      turn_loop-Ends system (maybe_compact c env s setup system a1) (maybe_compact-Ends system a1)

  -- The provider always answers, with an assistant's message.
  abbrev pub IsResponsive : Type 0
  IsResponsive =
      (system : Str) (messages : List (Message c.Number)) (tools : _) (world : env.World)
      → (content : List (ContentBlock c.Number)) × (stop_reason : StopReason) × (usage : Option
          ApiUsage)
        × ((s.complete system messages tools world).0 ≡ ok (assistant content stop_reason, usage))

  Ends-eq_ok : (result : Result TurnError Unit) → IsResponsive → Ends result → result ≡ ok tt
  Ends-eq_ok (ok _) h e = refl
  Ends-eq_ok (err panicked) h e = absurd e
  Ends-eq_ok (err (failed e)) h (system, messages, tools, world, reason) =
      let (content, stop_reason, usage, given) = h system messages tools world in
      let reason' : IsReason e (ok (assistant content stop_reason, usage)) = rw given at reason in
      cc reason'.0

  -- If the provider always answers, with an assistant's message, then every turn ends well,
  -- whatever the tools, the human and the stores do.
  pub run_turn-eq_ok :
      (content : List UserContent) (a : Agent env)
      → IsResponsive
      → (run_turn c env s setup content a).0 ≡ ok tt
  run_turn-eq_ok content a h =
      Ends-eq_ok (run_turn c env s setup content a).0 h (run_turn-Ends content a)
