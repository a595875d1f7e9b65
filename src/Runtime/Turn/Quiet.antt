-- ===== src/Runtime/Turn/Quiet.antt =====
-- runtime/mod.rs: the parts of a turn that leave the session as it is.
use cherub.Base.{
  Bool, true, false, ◌≡◌, refl, ◌∙◌, inr, Option, none, some, List, [], ◌∷◌, if◌then◌else◌,
}
use cherub.Base.Bytes.{Str, lit, str_eq}
use cherub.Base.Result.{Result, ok, err}
use cherub.Crates.{Crates}
use cherub.Json.{Value, get_str}
use cherub.Enforcement.Decision.{Decision}
use cherub.Providers.{CherubError, Message, user, assistant, tool_result, ApiUsage}
use cherub.Storage.{CallType, summarization, extraction}
use cherub.Tools.Registry.{ToolImpl, find_tool}
use cherub.Runtime.Output.{
  OutputEvent, Effect, emitted, usage_recorded, memory_stored, completed, Env,
}
use cherub.Runtime.AgentLoop.{Loop, log, emit, execute}
use cherub.Runtime.AgentLoop.Pairing.{execute_found-session}
use cherub.Runtime.AgentLoop.Effects.{
  Guarded, Does, HasDone-refl, log-HasDone, NotInference, execute_found-Does,
}
use cherub.Runtime.Prompt.{join, block_texts}
use cherub.Runtime.Tokens.{ToolDefinition}
use cherub.Runtime.Turn.State.{
  Surroundings, Setup, perform, observe, usage_row, record_cost, record_any, call_provider,
}
use cherub.Runtime.Turn.Flush.{
  promotion_params, promotion_decision, apply_promotion, promote, user_path, store_working,
  working_memory, flush_fact, flush_facts, flush_parsed, flush_message, flush_response,
  flush_to_memory, extraction_messages, summary_messages, strip_fences, summary_response, summarize,
  unwrap_or,
}
use cherub.Runtime.Turn.Sanction.{IsSanctioned}

module _ (c : Crates) (env : Env c.Number) (s : Surroundings c env) (setup : Setup c) where
  -- From one state to a later one the session is kept, nothing is executed without sanction, and
  -- there is no inference.
  abbrev pub Quiet : Loop env → Loop env → Type 0
  Quiet l0 l = (l.session ≡ l0.session) × Does env (IsSanctioned c env s setup) l0 l

  pub Quiet-refl : (l : Loop env) → Quiet l l
  Quiet-refl l = (refl, HasDone-refl env (Guarded (IsSanctioned c env s setup)) l)

  pub log-Quiet :
      (e : Effect c.Number) (l0 l : Loop env)
      → Guarded (IsSanctioned c env s setup) e
      → Quiet l0 l
      → Quiet l0 (log env e l)
  unfolding log
  log-Quiet e l0 l p h = (h.0, log-HasDone env (Guarded (IsSanctioned c env s setup)) e l0 l p h.1)

  pub emit-Quiet :
      (event : OutputEvent) (l0 l : Loop env) → Quiet l0 l → Quiet l0 (emit env event l)
  unfolding emit
  emit-Quiet event l0 l h = log-Quiet (emitted event) l0 l tt h

  pub observe-Quiet :
      {A : Type 0} (read : env.World → A × env.World) (l0 l : Loop env)
      → Quiet l0 l
      → Quiet l0 (observe env read l).1
  unfolding observe
  observe-Quiet read l0 l h = h

  perform-Quiet :
      (e : Effect c.Number) (change : env.World → env.World) (l0 l : Loop env)
      → Guarded (IsSanctioned c env s setup) e
      → Quiet l0 l
      → Quiet l0 (perform env e change l)
  unfolding perform
  perform-Quiet e change l0 l p h =
      log-Quiet e l0 (record { world = change l.world; session = l.session; effects = l.effects }) p
        h

  if-Quiet :
      (b : Bool) (l0 l1 l2 : Loop env) → Quiet l0 l1 → Quiet l0 l2 → Quiet l0 (if b then l1 else l2)
  if-Quiet true l0 l1 l2 h1 h2 = h1
  if-Quiet false l0 l1 l2 h1 h2 = h2

  pub record_any-Quiet :
      (usage : Option ApiUsage) (call_type : CallType) (l0 l : Loop env)
      → Quiet l0 l
      → Quiet l0 (record_any c env s usage call_type l)
  unfolding record_any record_cost
  record_any-Quiet none call_type l0 l h = h
  record_any-Quiet (some usage) call_type l0 l h =
      let row = usage_row c env s usage call_type l.session in
      if-Quiet s.has_cost_store l0 _ l
        (perform-Quiet (usage_recorded row) (s.append_usage row) l0 l tt h) h

  call_provider-Quiet :
      (call_type : CallType) (system : Str) (messages : List (Message c.Number))
      (tools : List (ToolDefinition c.Number)) (l0 l : Loop env)
      → NotInference call_type
      → Quiet l0 l
      → Quiet l0 (call_provider c env s call_type system messages tools l).1
  unfolding call_provider observe
  call_provider-Quiet call_type system messages tools l0 l other h =
      log-Quiet (completed call_type system messages) l0
        (record {
          world = (s.complete system messages tools l.world).1;
          session = l.session;
          effects = l.effects;
        })
        other h

  apply_promotion-Quiet :
      (decision : Decision) (params : Value c.Number) (l0 l : Loop env)
      → ((tool : ToolImpl) (token : _)
          → decision ≡ Decision.allow token
          → find_tool setup.registry (lit "memory") ≡ some tool
          → IsSanctioned c env s setup tool params token)
      → Quiet l0 l
      → Quiet l0 (apply_promotion c env s setup decision params l)
  unfolding apply_promotion execute
  apply_promotion-Quiet (Decision.allow token) params l0 l q h = (
    execute_found-session env (find_tool setup.registry (lit "memory")) _ params token _ l ∙ h.0,
    execute_found-Does env (IsSanctioned c env s setup) (find_tool setup.registry (lit "memory")) _
        params token _ l0 l (λ f e. q f token refl e) h.1,
  )
  apply_promotion-Quiet Decision.reject params l0 l q h = h
  apply_promotion-Quiet (Decision.escalate tier) params l0 l q h = h

  promote-Quiet :
      (content category : Str) (path : Option Str) (l0 l : Loop env)
      → Quiet l0 l
      → Quiet l0 (promote c env s setup content category path l)
  unfolding promote
  promote-Quiet content category none l0 l h = h
  promote-Quiet content category (some path) l0 l h =
      let params = promotion_params c env s setup content category path in
      apply_promotion-Quiet (promotion_decision c env s setup params) params l0 l
        (λ tool token allowed found. inr (content, category, path, refl, allowed, found)) h

  flush_fact-Quiet :
      (content : Option Str) (category importance : Str) (l0 l : Loop env)
      → Quiet l0 l
      → Quiet l0 (flush_fact c env s setup content category importance l)
  unfolding flush_fact store_working
  flush_fact-Quiet none category importance l0 l h = h
  flush_fact-Quiet (some content) category importance l0 l h =
      let memory = working_memory c env s setup content category l.session in
      let stored = perform-Quiet (memory_stored memory) (s.store_memory memory) l0 l tt h in
      if-Quiet (str_eq importance (lit "high")) l0 _ _
        (promote-Quiet content category (user_path category) l0 _ stored) stored

  flush_facts-Quiet :
      (facts : List (Value c.Number)) (l0 l : Loop env)
      → Quiet l0 l
      → Quiet l0 (flush_facts c env s setup facts l)
  unfolding flush_facts
  flush_facts-Quiet [] l0 l h = h
  flush_facts-Quiet (fact ∷ facts) l0 l h = flush_facts-Quiet facts l0 _ (
      flush_fact-Quiet (get_str fact (lit "content"))
        (unwrap_or (lit "observation") (get_str fact (lit "category")))
        (unwrap_or (lit "low") (get_str fact (lit "importance"))) l0 l h)

  flush_parsed-Quiet :
      (facts : Option (List (Value c.Number))) (l0 l : Loop env)
      → Quiet l0 l
      → Quiet l0 (flush_parsed c env s setup facts l)
  unfolding flush_parsed
  flush_parsed-Quiet none l0 l h = h
  flush_parsed-Quiet (some facts) l0 l h = flush_facts-Quiet facts l0 l h

  flush_message-Quiet :
      (message : Message c.Number) (l0 l : Loop env)
      → Quiet l0 l
      → Quiet l0 (flush_message c env s setup message l)
  unfolding flush_message
  flush_message-Quiet (assistant content stop_reason) l0 l h =
      flush_parsed-Quiet (s.parse_array (strip_fences (join [] (block_texts content)))) l0 l h
  flush_message-Quiet (user content) l0 l h = h
  flush_message-Quiet (tool_result id content is_error) l0 l h = h

  flush_response-Quiet :
      (response : Result CherubError (Message c.Number × Option ApiUsage)) (l0 l : Loop env)
      → Quiet l0 l
      → Quiet l0 (flush_response c env s setup response l)
  unfolding flush_response
  flush_response-Quiet (err e) l0 l h = h
  flush_response-Quiet (ok (message, usage)) l0 l h =
      flush_message-Quiet message l0 _ (record_any-Quiet usage extraction l0 l h)

  pub flush_to_memory-Quiet :
      (messages : List (Message c.Number)) (system : Str) (l0 l : Loop env)
      → Quiet l0 l
      → Quiet l0 (flush_to_memory c env s setup messages system l)
  unfolding flush_to_memory
  flush_to_memory-Quiet messages system l0 l h =
      if-Quiet s.has_memory_store l0 _ l
        (flush_response-Quiet _ l0 _ (
          call_provider-Quiet extraction system (extraction_messages c env s setup messages) [] l0 l
            tt h))
        h

  summary_response-Quiet :
      (response : Result CherubError (Message c.Number × Option ApiUsage)) (l0 l : Loop env)
      → Quiet l0 l
      → Quiet l0 (summary_response c env s setup response l).1
  unfolding summary_response
  summary_response-Quiet (err e) l0 l h = h
  summary_response-Quiet (ok (message, usage)) l0 l h = record_any-Quiet usage summarization l0 l h

  pub summarize-Quiet :
      (messages : List (Message c.Number)) (l0 l : Loop env)
      → Quiet l0 l
      → Quiet l0 (summarize c env s setup messages l).1
  unfolding summarize
  summarize-Quiet messages l0 l h = summary_response-Quiet _ l0 _ (
      call_provider-Quiet summarization (lit "You are a concise summarizer.")
        (summary_messages c env s setup messages) [] l0 l tt h)
