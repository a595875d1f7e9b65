-- ===== src/Runtime/Turn/Compaction.antt =====
-- runtime/mod.rs, `maybe_compact` and the hard stop: what they do to the conversation.
use cherub.Base.{
  ℕ, Bool, true, false, ◌≡◌, refl, ap, ◌∙◌, Option, none, some, List, if◌then◌else◌, ltb, length,
}
use cherub.Base.Bytes.{Str}
use cherub.Base.Result.{Result, ok, err}
use cherub.Crates.{Crates}
use cherub.Providers.{CherubError, Message}
use cherub.Runtime.Session.{
  Split, panics, refused, split, split_for_compaction, apply_compaction, persist_compacted,
}
use cherub.Runtime.Tokens.{context_window_size}
use cherub.Runtime.Output.{session_replaced, Env}
use cherub.Runtime.AgentLoop.{Loop, emit}
use cherub.Runtime.Turn.State.{Surroundings, Setup, TurnError, Agent}
use cherub.Runtime.Turn.Flush.{flush_to_memory, summarize}
use cherub.Runtime.Turn.Compact.{
  compaction_preserve_recent, compaction_min_messages, compaction_threshold, hard_stop_limit,
  input_tokens, compacted_warning, summary_user, summary_ack, replace_session, compact_with,
  compact_split, maybe_compact, hard_stop,
}
use cherub.Runtime.Turn.Sanction.{IsSanctioned}
use cherub.Runtime.Turn.Quiet.{
  Quiet, Quiet-refl, log-Quiet, emit-Quiet, flush_to_memory-Quiet, summarize-Quiet,
}
use cherub.Runtime.Turn.Conversation.{compacted, Leads, Does-Leads}

module _ (c : Crates) (env : Env c.Number) (s : Surroundings c env) (setup : Setup c) where
  abbrev pub Follows : Loop env → Loop env → Type 0
  Follows l0 l = Leads env (IsSanctioned c env s setup) l0 l

  pub Quiet-Leads : (l0 l : Loop env) → Quiet c env s setup l0 l → Follows l0 l
  Quiet-Leads l0 l (e, d) =
      Does-Leads env (IsSanctioned c env s setup) l0 l d (λ m session t. rw (← e) t)

  -- The parts of `maybe_compact`.
  replace_session-Does :
      (row : Option (ℕ × List (Message c.Number))) (l : Loop env)
      → Quiet c env s setup l (replace_session c env s setup row l)
  unfolding replace_session
  replace_session-Does none l = Quiet-refl c env s setup l
  replace_session-Does (some (id, messages)) l =
      log-Quiet c env s setup (session_replaced id messages) l l tt (Quiet-refl c env s setup l)

  compact_with-Leads :
      (summary : Result CherubError Str) (old recent : List (Message c.Number)) (a : Agent env)
      → split_for_compaction a.loop.session compaction_preserve_recent ≡ split old recent
      → Follows a.loop (compact_with c env s setup summary recent a).1.loop
  unfolding compact_with
  compact_with-Leads (err e) old recent a cut = λ m n l' h. h
  compact_with-Leads (ok summary) old recent a cut =
      let session =
        apply_compaction (summary_user c env s setup summary a.loop.session)
          (summary_ack c env s setup) recent a.loop.session in
      let l1 : Loop env = record {
        world = a.loop.world;
        session = session;
        effects = a.loop.effects;
      } in
      let l2 = replace_session c env s setup (persist_compacted session) l1 in
      let q =
        emit-Quiet c env s setup compacted_warning l1 l2
          (replace_session-Does (persist_compacted session) l1) in
      Does-Leads env (IsSanctioned c env s setup) a.loop (emit env compacted_warning l2) q.1
        (λ m final t.
          compacted m a.loop.session final old recent
            (summary_user c env s setup summary a.loop.session) (summary_ack c env s setup) cut
            (rw (← q.0) t))

  compact_split-Leads :
      (cut : Split c.Number) (system : Str) (a : Agent env)
      → split_for_compaction a.loop.session compaction_preserve_recent ≡ cut
      → Follows a.loop (compact_split c env s setup cut system a).1.loop
  unfolding compact_split
  compact_split-Leads panics system a e = λ m n l' h. h
  compact_split-Leads refused system a e = λ m n l' h. h
  compact_split-Leads (split old recent) system a e =
      let q = summarize-Quiet c env s setup old a.loop _ (
        flush_to_memory-Quiet c env s setup old system a.loop a.loop
          (Quiet-refl c env s setup a.loop)) in
      let l = (summarize c env s setup old (flush_to_memory c env s setup old system a.loop)).1 in
      λ m n l' h. Quiet-Leads a.loop l q m n l' (
        compact_with-Leads
          (summarize c env s setup old (flush_to_memory c env s setup old system a.loop)).0 old
          recent (record { loop = l; last_usage = a.last_usage })
          (ap (λ x. split_for_compaction x compaction_preserve_recent) q.0 ∙ e) m n l' h)

  if-Leads :
      (b : Bool) (l0 : Loop env) (p q : Result TurnError Unit × Agent env)
      → Follows l0 p.1.loop
      → Follows l0 q.1.loop
      → Follows l0 (if b then p else q).1.loop
  if-Leads true l0 p q hp hq = hp
  if-Leads false l0 p q hp hq = hq

  pub maybe_compact-Leads :
      (system : Str) (a : Agent env) → Follows a.loop (maybe_compact c env s setup system a).1.loop
  unfolding maybe_compact
  maybe_compact-Leads system a =
      if-Leads (ltb (length a.loop.session.messages) compaction_min_messages) a.loop (ok tt, a) _
        (λ m n l' h. h)
        (if-Leads
          (ltb (input_tokens c env s setup system a)
            (compaction_threshold (context_window_size s.model_name)))
          a.loop (ok tt, a) _ (λ m n l' h. h)
          (compact_split-Leads (split_for_compaction a.loop.session compaction_preserve_recent)
            system a refl))

  pub hard_stop-Leads :
      (system : Str) (a : Agent env) → Follows a.loop (hard_stop c env s setup system a).1.loop
  unfolding hard_stop
  hard_stop-Leads system a =
      if-Leads (ltb (length a.loop.session.messages) compaction_min_messages) a.loop (ok tt, a) _
        (λ m n l' h. h)
        (if-Leads
          (ltb (hard_stop_limit (context_window_size s.model_name))
            (input_tokens c env s setup system a))
          a.loop (maybe_compact c env s setup system a) (ok tt, a) (maybe_compact-Leads system a)
          (λ m n l' h. h))
