-- ===== src/Runtime/Turn.antt =====
-- runtime/mod.rs, `run_turn`: one turn of the user, with its loop over the calls of the provider.
pub mod State
pub mod Flush
pub mod Compact
pub mod Sanction
pub mod Quiet
pub mod Conversation
pub mod Compaction
pub mod Rounds
pub mod Steps
pub mod Refinement
pub mod Ends
use cherub.Base.{
  ℕ, zero, suc, Bool, true, false, Option, none, some, List, [], ◌∷◌, ◌++◌, if◌then◌else◌, leb,
  length, is_empty,
}
use cherub.Base.Bytes.{Str, lit}
use cherub.Base.Result.{Result, ok, err}
use cherub.Crates.{Crates}
use cherub.Enforcement.Policy
use cherub.Enforcement.Evaluate.{BudgetContext}
use cherub.Providers.{
  CherubError, provider, Message, user, assistant, tool_result, UserContent, ContentBlock,
  StopReason, max_tokens, end_turn, ApiUsage,
}
use cherub.Storage.{Memory, inference}
use cherub.Runtime.Prompt.{em_dash, extract_user_text, format_memory_injection}
use cherub.Runtime.Output.{OutputEvent, ToolContext, ToolUse, Env, warning, memory_touched}
use cherub.Runtime.AgentLoop.{Loop, log, emit, process_tool_uses}
use cherub.Runtime.Turn.State.{
  Surroundings, Setup, TurnError, failed, Agent, push_message, observe, record_any, call_provider,
}
use cherub.Runtime.Turn.Compact.{maybe_compact, hard_stop}

abbrev pub max_iterations : ℕ
max_iterations = 25

abbrev pub injection_max_memories : ℕ
injection_max_memories = 5

abbrev pub injection_min_query_len : ℕ
injection_min_query_len = 3

-- The loop over the blocks of a response: the calls that are collected, and the texts that are
-- emitted.
abbrev pub tool_uses : {N : Type 0} → List (ContentBlock N) → List (ToolUse N)
tool_uses [] = []
tool_uses (ContentBlock.text t ∷ content) = tool_uses content
tool_uses (ContentBlock.tool_use id name input ∷ content) =
    record { id = id; name = name; input = input } ∷ tool_uses content

module _ {N : Type 0} (env : Env N) where
  unfoldable pub emit_texts : List (ContentBlock N) → Loop env → Loop env
  unfolding emit
  emit_texts [] l = l
  emit_texts (ContentBlock.text t ∷ content) l =
      emit_texts content (if is_empty t then l else emit env (OutputEvent.text t) l)
  emit_texts (ContentBlock.tool_use id name input ∷ content) l = emit_texts content l

  unfoldable pub warn_truncated : StopReason → Loop env → Loop env
  unfolding emit
  warn_truncated max_tokens l =
      emit env
        (warning
          (lit "Model response was truncated " ++ em_dash ++ lit " output may be incomplete."))
        l
  warn_truncated end_turn l = l
  warn_truncated StopReason.tool_use l = l

  -- The warning at the end of the last iteration.
  unfoldable pub warn_last : ℕ → Loop env → Loop env
  unfolding emit
  warn_last zero l = emit env (warning (lit "Reached maximum iterations, stopping.")) l
  warn_last (suc left) l = l

abbrev pub asks_tools : StopReason → Bool
asks_tools StopReason.tool_use = true
asks_tools end_turn = false
asks_tools max_tokens = false

-- What an iteration comes to: the turn is over, or it goes on.
pub data Iteration {N : Type 0} (env : Env N) : Type 0 where
  finished : Result TurnError Unit → Agent env → Iteration env
  continued : Agent env → Iteration env

-- `option.unwrap_or(default)`, and a read that is made only if a limit is set.
abbrev pub cost_or : {A : Type 0} → A → Option A → A
cost_or default none = default
cost_or default (some a) = a

-- After an iteration: the turn's result, or the further iterations.
abbrev pub proceed :
    {N : Type 0} {env : Env N}
    → (Agent env → Result TurnError Unit × Agent env)
    → Iteration env
    → Result TurnError Unit × Agent env
proceed further (finished result a) = (result, a)
proceed further (continued a) = further a

module _ (c : Crates) (env : Env c.Number) (s : Surroundings c env) (setup : Setup c) where
  unfoldable pub cost_for :
      {L : Type 0} → Option L → (env.World → Option c.F64 × env.World) → Loop env → c.F64 × Loop env
  unfolding observe
  cost_for none read l = (s.zero_cost, l)
  cost_for (some limit) read l =
      let (answer, seen) = observe env read l in (cost_or s.zero_cost answer, seen)

  -- The budget context of the calls of a response.
  unfoldable pub budget_for :
      Bool → Option (Policy.CompiledBudget c) → Loop env → Option (BudgetContext c) × Loop env
  unfolding cost_for
  budget_for false budget l = (none, l)
  budget_for true none l = (none, l)
  budget_for true (some budget) l =
      let (session_cost, l1) = cost_for budget.session_limit_usd (s.session_cost l.session.id) l in
      let (daily_cost, l2) =
        cost_for budget.daily_limit_usd (s.period_cost l1.session.user_id) l1 in
      (some (record { session_cost_usd = session_cost; daily_cost_usd = daily_cost }), l2)

  -- The calls of a response, each through enforcement; the warning after the last iteration.
  unfoldable pub run_tools : ℕ → List (ToolUse c.Number) → Loop env → Loop env
  unfolding budget_for process_tool_uses warn_last
  run_tools left calls l =
      let ctx : ToolContext = record {
        user_id = l.session.user_id;
        session_id = l.session.id;
        turn_number = l.session.next_ordinal;
      } in
      let (budget, l1) = budget_for s.has_cost_store setup.policy.budget l in
      warn_last env left (process_tool_uses c env setup.registry setup.policy budget ctx calls l1)

  -- A response that is an assistant's message: it is shown and pushed.
  unfoldable pub accept : List (ContentBlock c.Number) → StopReason → Loop env → Loop env
  unfolding push_message warn_truncated emit_texts
  accept content stop_reason l =
      push_message env (assistant content stop_reason)
        (warn_truncated env stop_reason (emit_texts env content l))

  -- `left` is the count of the iterations that remain after this one.
  unfoldable pub after_message : ℕ → Message c.Number → Agent env → Iteration env
  unfolding accept run_tools
  after_message left (assistant content stop_reason) a =
      let l = accept content stop_reason a.loop in
      if asks_tools stop_reason
      then (if is_empty (tool_uses content)
          then finished (ok tt) (record { loop = l; last_usage = a.last_usage })
          else continued
              (record { loop = run_tools left (tool_uses content) l; last_usage = a.last_usage }))
      else finished (ok tt) (record { loop = l; last_usage = a.last_usage })
  after_message left (user content) a =
      finished (err (failed (provider (lit "unexpected message type")))) a
  after_message left (tool_result id content is_error) a =
      finished (err (failed (provider (lit "unexpected message type")))) a

  unfoldable pub note_usage : Option ApiUsage → Loop env → Option ApiUsage → Agent env
  unfolding record_any
  note_usage none l last = record { loop = l; last_usage = last }
  note_usage (some usage) l last = record {
    loop = record_any c env s (some usage) inference l;
    last_usage = some usage;
  }

  unfoldable pub after_response :
      ℕ
      → Result CherubError (Message c.Number × Option ApiUsage)
      → Loop env
      → Option ApiUsage
      → Iteration env
  unfolding after_message note_usage
  after_response left (err e) l last =
      finished (err (failed e)) (record { loop = l; last_usage = last })
  after_response left (ok (message, usage)) l last =
      after_message left message (note_usage usage l last)

  unfoldable pub infer : ℕ → Str → Result TurnError Unit → Agent env → Iteration env
  unfolding after_response call_provider
  infer left system (err e) a = finished (err e) a
  infer left system (ok _) a =
      let (response, l) =
        call_provider c env s inference system a.loop.session.messages setup.tool_definitions
          a.loop in
      after_response left response l a.last_usage

  -- The body of the loop.
  unfoldable pub iteration : ℕ → Str → Agent env → Iteration env
  unfolding infer hard_stop
  iteration left system a =
      let (checked, a1) = hard_stop c env s setup system a in infer left system checked a1

  -- `for iteration in 0..MAX_ITERATIONS`, from the count of the iterations that remain.
  unfoldable pub iterate : ℕ → Str → Agent env → Result TurnError Unit × Agent env
  unfolding iteration
  iterate zero system a = (ok tt, a)
  iterate (suc left) system a = proceed (λ next. iterate left system next) (iteration left system a)

  unfoldable pub touch_all : List (Memory c.F64) → Loop env → Loop env
  unfolding log
  touch_all [] l = l
  touch_all (m ∷ memories) l = touch_all memories (log env (memory_touched m.id) l)

  -- The system prompt with the memories that were found.
  unfoldable pub inject : Result CherubError (List (Memory c.F64)) → Loop env → Str × Loop env
  unfolding touch_all
  inject (err e) l = (setup.system_prompt, l)
  inject (ok []) l = (setup.system_prompt, l)
  inject (ok (m ∷ memories)) l = (
    setup.system_prompt ++ format_memory_injection s.format_date s.format_confidence (m ∷ memories),
    touch_all (m ∷ memories) l,
  )

  unfoldable pub effective_system : Bool → Str → Loop env → Str × Loop env
  unfolding inject observe
  effective_system false query l = (setup.system_prompt, l)
  effective_system true query l =
      let (found, l1) = observe env (s.search query l.session.user_id injection_max_memories) l in
      inject found l1

  -- What follows the compaction at the start of a turn.
  unfoldable pub turn_loop :
      Str → Result TurnError Unit × Agent env → Result TurnError Unit × Agent env
  unfolding iterate
  turn_loop system (err e, a) = (err e, a)
  turn_loop system (ok _, a) = iterate max_iterations system a

  -- The user's message is pushed, and the system prompt is found.
  unfoldable pub begin_turn : List UserContent → Agent env → Str × Agent env
  unfolding effective_system push_message
  begin_turn content a =
      let query = extract_user_text content in
      let pushed = push_message env (user content) a.loop in
      let wants =
        (if leb injection_min_query_len (length query) then s.has_memory_store else false) in
      let (system, l) = effective_system wants query pushed in
      (system, record { loop = l; last_usage = a.last_usage })

  unfoldable pub run_turn : List UserContent → Agent env → Result TurnError Unit × Agent env
  unfolding turn_loop maybe_compact begin_turn
  run_turn content a =
      let (system, a1) = begin_turn content a in
      turn_loop system (maybe_compact c env s setup system a1)

  unfoldable pub run_turn_text : Str → Agent env → Result TurnError Unit × Agent env
  unfolding run_turn
  run_turn_text text a = run_turn (UserContent.text text ∷ []) a
