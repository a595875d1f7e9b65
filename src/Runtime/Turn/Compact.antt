-- ===== src/Runtime/Turn/Compact.antt =====
-- runtime/mod.rs, `maybe_compact` and the hard stop before a call of the provider.
use cherub.Base.{
  ℕ, ◌+◌, ◌*◌, ◌/◌, Option, none, some, List, [], ◌∷◌, ◌++◌, if◌then◌else◌, ltb, length,
}
use cherub.Base.Bytes.{Str, lit}
use cherub.Base.Result.{Result, ok, err}
use cherub.Crates.{Crates}
use cherub.Providers.{CherubError, Message, assistant, ContentBlock, end_turn, user_text}
use cherub.Runtime.Session.{
  Session, as_i32, Split, panics, refused, split, split_for_compaction, apply_compaction,
  persist_compacted,
}
use cherub.Runtime.Tokens.{estimate_tokens, context_window_size}
use cherub.Runtime.Prompt.{em_dash, newline, decimal}
use cherub.Runtime.Output.{OutputEvent, Env, warning, session_replaced}
use cherub.Runtime.AgentLoop.{Loop, log, emit}
use cherub.Runtime.Turn.State.{Surroundings, Setup, TurnError, failed, panicked, Agent}
use cherub.Runtime.Turn.Flush.{flush_to_memory, summarize}

abbrev pub compaction_preserve_recent : ℕ
compaction_preserve_recent = 6

abbrev pub compaction_min_messages : ℕ
compaction_min_messages = 10

-- `(window as f32 * 0.75) as u32` and `(window as f32 * 0.95) as u32`, which are exact for the two
-- windows there are: 150000 and 75000, 190000 and 95000.
abbrev pub compaction_threshold : ℕ → ℕ
compaction_threshold window = window * 3 / 4

abbrev pub hard_stop_limit : ℕ → ℕ
hard_stop_limit window = window * 19 / 20

abbrev pub compacted_warning : OutputEvent
compacted_warning =
    warning (lit "Context compacted " ++ em_dash ++ lit " older conversation has been summarized.")

module _ (c : Crates) (env : Env c.Number) (s : Surroundings c env) (setup : Setup c) where
  -- The tokens that the provider reported last, or else the estimate.
  unfoldable pub input_tokens : Str → Agent env → ℕ
  input_tokens system a = elim a.last_usage [
    | some usage ↦ usage.input_tokens
    | none ↦
        estimate_tokens (λ v. length (s.value_text v)) system a.loop.session.messages
          setup.tool_definitions
  ]

  unfoldable pub summary_user : Str → Session c.Number → Message c.Number
  summary_user summary session = user_text (
      lit "[Context Summary "
      ++ em_dash
      ++ lit " Compaction #"
      ++ decimal 10 (as_i32 (session.compaction_count + 1))
      ++ lit "]"
      ++ newline
      ++ newline
      ++ summary)

  abbrev pub summary_ack : Message c.Number
  summary_ack =
      assistant
        (ContentBlock.text (lit "Understood. I have the context from our earlier conversation.")
          ∷ [])
        end_turn

  unfoldable pub replace_session : Option (ℕ × List (Message c.Number)) → Loop env → Loop env
  unfolding log
  replace_session none l = l
  replace_session (some (id, messages)) l = log env (session_replaced id messages) l

  -- What follows the summary.
  unfoldable pub compact_with :
      Result CherubError Str
      → List (Message c.Number)
      → Agent env
      → Result TurnError Unit × Agent env
  unfolding replace_session emit summary_user
  compact_with (err e) recent a = (err (failed e), a)
  compact_with (ok summary) recent a =
      let session =
        apply_compaction (summary_user summary a.loop.session) summary_ack recent a.loop.session in
      (
        ok tt,
        record {
          loop = emit env compacted_warning (
              replace_session (persist_compacted session)
                (record { world = a.loop.world; session = session; effects = a.loop.effects }));
          last_usage = none;
        },
      )

  unfoldable pub compact_split :
      Split c.Number → Str → Agent env → Result TurnError Unit × Agent env
  unfolding compact_with summarize flush_to_memory
  compact_split panics system a = (err panicked, a)
  compact_split refused system a = (ok tt, a)
  compact_split (split old recent) system a =
      let (summary, l) =
        summarize c env s setup old (flush_to_memory c env s setup old system a.loop) in
      compact_with summary recent (record { loop = l; last_usage = a.last_usage })

  unfoldable pub maybe_compact : Str → Agent env → Result TurnError Unit × Agent env
  unfolding compact_split input_tokens
  maybe_compact system a =
      if ltb (length a.loop.session.messages) compaction_min_messages
      then (ok tt, a)
      else if ltb (input_tokens system a) (compaction_threshold (context_window_size s.model_name))
      then (ok tt, a)
      else compact_split (split_for_compaction a.loop.session compaction_preserve_recent) system a

  -- The hard stop at the start of an iteration.
  unfoldable pub hard_stop : Str → Agent env → Result TurnError Unit × Agent env
  unfolding maybe_compact input_tokens
  hard_stop system a =
      if ltb (length a.loop.session.messages) compaction_min_messages
      then (ok tt, a)
      else if ltb (hard_stop_limit (context_window_size s.model_name)) (input_tokens system a)
      then maybe_compact system a
      else (ok tt, a)
