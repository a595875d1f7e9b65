-- ===== src/Runtime/Turn/Flush.antt =====
-- runtime/mod.rs, `flush_to_memory` and `summarize`: what becomes of the messages that a compaction
-- removes.
use mathlib.Core.List.{reverse}
use cherub.Base.{Option, none, some, List, [], ◌∷◌, ◌++◌, if◌then◌else◌, ◌>>=◌}
use cherub.Base.Bytes.{Str, lit, str_eq, strip_prefix, trim}
use cherub.Base.Result.{Result, ok, err}
use cherub.Crates.{Crates}
use cherub.Json.{Value, string, number, object, entry, end, get_str}
use cherub.Enforcement.Decision.{Decision}
use cherub.Enforcement.Evaluate.{evaluate}
use cherub.Providers.{
  CherubError, provider, Message, user, assistant, tool_result, ApiUsage, user_text,
}
use cherub.Storage.{
  NewMemory, parse_category, observation, MemoryScope, inferred, summarization, extraction,
}
use cherub.Runtime.Session.{Session}
use cherub.Runtime.Prompt.{join, newline, block_texts, serialize_messages_for_prompt}
use cherub.Runtime.Output.{Env, memory_stored}
use cherub.Runtime.AgentLoop.{Loop, execute}
use cherub.Runtime.Turn.State.{Surroundings, Setup, perform, record_any, call_provider}

-- `option.unwrap_or(default)`.
abbrev pub unwrap_or : {A : Type 0} → A → Option A → A
unwrap_or default none = default
unwrap_or default (some a) = a

-- `s.strip_suffix(p)`.
abbrev pub strip_suffix : Str → Str → Option Str
strip_suffix p s = elim (strip_prefix (reverse p) (reverse s)) [
  | none ↦ none
  | some rest ↦ some (reverse rest)
]

-- `a.or_else(|| b)`.
abbrev pub or_else : {A : Type 0} → Option A → Option A → Option A
or_else none b = b
or_else (some a) b = some a

abbrev pub fence : Str
fence = lit "```"

-- The text without its code fences.
unfoldable pub strip_fences : Str → Str
strip_fences s = unwrap_or (trim s) (
    or_else (strip_prefix (fence ++ lit "json") (trim s)) (strip_prefix fence (trim s))
    >>= strip_suffix fence)

-- `match category_str`: where a fact of high importance goes.
unfoldable pub user_path : Str → Option Str
user_path category =
    if str_eq category (lit "preference")
    then some (lit "preferences/compaction")
    else if str_eq category (lit "fact")
    then some (lit "facts/compaction")
    else if str_eq category (lit "instruction")
    then some (lit "instructions/compaction")
    else none

abbrev extraction_head : Str
extraction_head =
    lit "Extract important facts, preferences, and decisions from this conversation. "
    ++ lit "Return a JSON array of objects, each with:"
    ++ newline
    ++ lit "- \"content\": the fact or preference (one sentence)"
    ++ newline
    ++ lit "- \"category\": one of \"preference\", \"fact\", \"instruction\", \"observation\""
    ++ newline
    ++ lit "- \"importance\": \"high\" for explicit preferences, instructions, and "
    ++ lit "identity-relevant facts; \"low\" for transient observations and routine details"
    ++ newline
    ++ newline
    ++ lit "Only include information worth remembering across sessions. "
    ++ lit "Omit routine tool outputs and transient details."
    ++ newline
    ++ newline
    ++ lit "--- Conversation ---"
    ++ newline

abbrev extraction_tail : Str
extraction_tail =
    newline
    ++ lit "--- End ---"
    ++ newline
    ++ newline
    ++ lit "Return ONLY the JSON array, no other text."

abbrev summary_head : Str
summary_head =
    lit "You are a conversation summarizer. Below is a conversation between a user and an "
    ++ lit "AI assistant. Produce a concise summary that preserves:"
    ++ newline
    ++ lit "- Key decisions and conclusions"
    ++ newline
    ++ lit "- Important facts, file paths, and code references"
    ++ newline
    ++ lit "- User preferences and instructions"
    ++ newline
    ++ lit "- Current state of any in-progress tasks"
    ++ newline
    ++ newline
    ++ lit "Omit routine back-and-forth. Focus on information the assistant would need "
    ++ lit "to continue the conversation coherently."
    ++ newline
    ++ newline
    ++ lit "--- Conversation ---"
    ++ newline

abbrev summary_tail : Str
summary_tail =
    newline
    ++ lit "--- End of conversation ---"
    ++ newline
    ++ newline
    ++ lit "Provide only the summary, no preamble."

module _ (c : Crates) (env : Env c.Number) (s : Surroundings c env) (setup : Setup c) where
  -- The input of the memory tool for a fact that is promoted; the entries are in the order of keys.
  unfoldable pub promotion_params : Str → Str → Str → Value c.Number
  promotion_params content category path = object (
      entry (lit "action") (string (lit "store")) (
        entry (lit "category") (string category) (
          entry (lit "confidence") (number s.memory_confidence) (
            entry (lit "content") (string content) (
              entry (lit "path") (string path) (
                entry (lit "scope") (string (lit "user"))
                  (entry (lit "source_type") (string (lit "inferred")) end)))))))

  unfoldable pub promotion_decision : Value c.Number → Decision
  promotion_decision params =
      (evaluate c (record { tool = lit "memory"; action = lit "execute"; params = params })
        setup.policy none).1

  -- `match decision` of the second pass: only an allowed write is done, and its outcome is dropped.
  unfoldable pub apply_promotion : Decision → Value c.Number → Loop env → Loop env
  unfolding execute
  apply_promotion (Decision.allow token) params l =
      (execute env setup.registry (lit "memory") params token
        (record {
          user_id = l.session.user_id;
          session_id = l.session.id;
          turn_number = l.session.next_ordinal;
        })
        l).1
  apply_promotion Decision.reject params l = l
  apply_promotion (Decision.escalate tier) params l = l

  unfoldable pub promote : Str → Str → Option Str → Loop env → Loop env
  unfolding apply_promotion promotion_decision promotion_params
  promote content category none l = l
  promote content category (some path) l =
      let params = promotion_params content category path in
      apply_promotion (promotion_decision params) params l

  unfoldable pub working_memory : Str → Str → Session c.Number → NewMemory c.Number
  working_memory content category session = record {
    user_id = session.user_id;
    scope = MemoryScope.working;
    category = unwrap_or observation (parse_category category);
    path = lit "working/compaction/" ++ category;
    content = content;
    structured = none;
    source_session_id = some session.id;
    source_turn_number = none;
    source_type = inferred;
    confidence = some s.memory_confidence;
  }

  -- The first pass: the fact is written to the working scope.
  unfoldable pub store_working : Str → Str → Loop env → Loop env
  unfolding perform working_memory
  store_working content category l =
      let memory = working_memory content category l.session in
      perform env (memory_stored memory) (s.store_memory memory) l

  -- The body of the loop over the facts, from the content of the fact.
  unfoldable pub flush_fact : Option Str → Str → Str → Loop env → Loop env
  unfolding store_working promote
  flush_fact none category importance l = l
  flush_fact (some content) category importance l =
      let stored = store_working content category l in
      if str_eq importance (lit "high")
      then promote content category (user_path category) stored
      else stored

  unfoldable pub flush_facts : List (Value c.Number) → Loop env → Loop env
  unfolding flush_fact
  flush_facts [] l = l
  flush_facts (fact ∷ facts) l = flush_facts facts (
      flush_fact (get_str fact (lit "content"))
        (unwrap_or (lit "observation") (get_str fact (lit "category")))
        (unwrap_or (lit "low") (get_str fact (lit "importance"))) l)

  unfoldable pub flush_parsed : Option (List (Value c.Number)) → Loop env → Loop env
  unfolding flush_facts
  flush_parsed none l = l
  flush_parsed (some facts) l = flush_facts facts l

  -- What follows the answer to the extraction prompt.
  unfoldable pub flush_message : Message c.Number → Loop env → Loop env
  unfolding flush_parsed
  flush_message (assistant content stop_reason) l =
      flush_parsed (s.parse_array (strip_fences (join [] (block_texts content)))) l
  flush_message (user content) l = l
  flush_message (tool_result id content is_error) l = l

  unfoldable pub flush_response :
      Result CherubError (Message c.Number × Option ApiUsage) → Loop env → Loop env
  unfolding flush_message record_any
  flush_response (err e) l = l
  flush_response (ok (message, usage)) l =
      flush_message message (record_any c env s usage extraction l)

  unfoldable pub extraction_messages : List (Message c.Number) → List (Message c.Number)
  extraction_messages messages =
      user_text
        (extraction_head ++ serialize_messages_for_prompt s.value_text messages ++ extraction_tail)
      ∷ []

  unfoldable pub flush_to_memory : List (Message c.Number) → Str → Loop env → Loop env
  unfolding flush_response call_provider extraction_messages
  flush_to_memory messages system l =
      let (response, asked) =
        call_provider c env s extraction system (extraction_messages messages) [] l in
      if s.has_memory_store then flush_response response asked else l

  -- What follows the answer to the summary prompt.
  unfoldable pub summary_of : Message c.Number → Result CherubError Str
  summary_of (assistant content stop_reason) = ok (join newline (block_texts content))
  summary_of (user content) = err (provider (lit "unexpected response type from summarization"))
  summary_of (tool_result id content is_error) =
      err (provider (lit "unexpected response type from summarization"))

  unfoldable pub summary_response :
      Result CherubError (Message c.Number × Option ApiUsage)
      → Loop env
      → Result CherubError Str × Loop env
  unfolding record_any summary_of
  summary_response (err e) l = (err e, l)
  summary_response (ok (message, usage)) l =
      (summary_of message, record_any c env s usage summarization l)

  unfoldable pub summary_messages : List (Message c.Number) → List (Message c.Number)
  summary_messages messages =
      user_text
        (summary_head ++ serialize_messages_for_prompt s.value_text messages ++ summary_tail)
      ∷ []

  unfoldable pub summarize : List (Message c.Number) → Loop env → Result CherubError Str × Loop env
  unfolding summary_response call_provider summary_messages
  summarize messages l =
      let (response, asked) =
        call_provider c env s summarization (lit "You are a concise summarizer.")
          (summary_messages messages) [] l in
      summary_response response asked
