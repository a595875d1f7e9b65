-- ===== src/Runtime/Turn/Refinement.antt =====
-- runtime/mod.rs, `run_turn`: the code's turn as a turn of the conversation.
use cherub.Base.{
  ℕ, ◌≤◌, Bool, true, false, ◌≡◌, List, [], ◌∷◌, ◌++◌, All, arith, if◌then◌else◌, leb, length,
}
use cherub.Base.Bytes.{Str}
use cherub.Base.Result.{Result, ok, err}
use cherub.Crates.{Crates}
use cherub.Providers.{CherubError, Message, user, assistant, UserContent, StopReason}
use cherub.Storage.{Memory}
use cherub.Runtime.Session.{Session, push}
use cherub.Runtime.Prompt.{extract_user_text}
use cherub.Runtime.Output.{Effect, memory_touched, Env}
use cherub.Runtime.AgentLoop.{Loop}
use cherub.Runtime.Turn.{
  touch_all, inject, effective_system, turn_loop, begin_turn, run_turn, max_iterations,
  injection_max_memories, injection_min_query_len,
}
use cherub.Runtime.Turn.State.{Surroundings, Setup, TurnError, Agent, push_message, observe}
use cherub.Runtime.Turn.Compact.{maybe_compact}
use cherub.Runtime.Turn.Sanction.{IsSanctioned}
use cherub.Runtime.Turn.Quiet.{Quiet, Quiet-refl, log-Quiet, observe-Quiet}
use cherub.Runtime.Turn.Compaction.{Quiet-Leads, maybe_compact-Leads}
use cherub.Runtime.Turn.Rounds.{Pushes, push_message-Pushes}
use cherub.Runtime.Session.Ordinals.{IsNumbered, push-IsNumbered, apply_compaction-IsNumbered}
use cherub.Runtime.Turn.Steps.{halts, iterate-Goes}
use cherub.Runtime.Turn.Conversation.{
  push_all, Turn, broken_off, replied, round, compacted, Allowed, inferences, IsRun, Goes,
  Does-IsRun, IsRun-trans,
}

module _ (c : Crates) (env : Env c.Number) (s : Surroundings c env) (setup : Setup c) where
  -- The start of a turn.
  touch_all-Quiet :
      (memories : List (Memory c.F64)) (l0 l : Loop env)
      → Quiet c env s setup l0 l
      → Quiet c env s setup l0 (touch_all c env s setup memories l)
  unfolding touch_all
  touch_all-Quiet [] l0 l h = h
  touch_all-Quiet (m ∷ memories) l0 l h =
      touch_all-Quiet memories l0 _ (log-Quiet c env s setup (memory_touched m.id) l0 l tt h)

  inject-Quiet :
      (found : Result CherubError (List (Memory c.F64))) (l0 l : Loop env)
      → Quiet c env s setup l0 l
      → Quiet c env s setup l0 (inject c env s setup found l).1
  unfolding inject
  inject-Quiet (err e) l0 l h = h
  inject-Quiet (ok []) l0 l h = h
  inject-Quiet (ok (m ∷ memories)) l0 l h = touch_all-Quiet (m ∷ memories) l0 l h

  effective_system-Quiet :
      (wants : Bool) (query : Str) (l0 l : Loop env)
      → Quiet c env s setup l0 l
      → Quiet c env s setup l0 (effective_system c env s setup wants query l).1
  unfolding effective_system
  effective_system-Quiet false query l0 l h = h
  effective_system-Quiet true query l0 l h =
      let read = s.search query l.session.user_id injection_max_memories in
      inject-Quiet (observe env read l).0 l0 (observe env read l).1
        (observe-Quiet c env s setup read l0 l h)

  turn_loop-Goes :
      (system : Str) (r : Result TurnError Unit × Agent env)
      → Goes env
          (IsSanctioned c env s setup)
          max_iterations
          max_iterations
          r.1.loop
          (turn_loop c env s setup system r).1.loop
  unfolding turn_loop
  turn_loop-Goes system (err e, a) = halts c env s setup max_iterations max_iterations a.loop
  turn_loop-Goes system (ok _, a) = iterate-Goes c env s setup max_iterations system a

  begin_turn-Quiet :
      (content : List UserContent) (a : Agent env)
      → Quiet c env s setup
          (push_message env (user content) a.loop)
          (begin_turn c env s setup content a).1.loop
  unfolding begin_turn
  begin_turn-Quiet content a =
      let pushed = push_message env (user content) a.loop in
      effective_system-Quiet
        (if leb injection_min_query_len (length (extract_user_text content))
          then s.has_memory_store
          else false)
        (extract_user_text content) pushed pushed (Quiet-refl c env s setup pushed)

  -- The turn's start, and what goes on from there.
  run_turn-Goes :
      (content : List UserContent) (a : Agent env)
      → Goes env
          (IsSanctioned c env s setup)
          max_iterations
          max_iterations
          (push_message env (user content) a.loop)
          (run_turn c env s setup content a).1.loop
  unfolding run_turn
  run_turn-Goes content a =
      let pushed = push_message env (user content) a.loop in
      let (system, a1) = begin_turn c env s setup content a in
      let checked = maybe_compact c env s setup system a1 in
      Quiet-Leads c env s setup pushed a1.loop (begin_turn-Quiet content a) max_iterations
        max_iterations (turn_loop c env s setup system checked).1.loop
        (maybe_compact-Leads c env s setup system a1 max_iterations max_iterations
          (turn_loop c env s setup system checked).1.loop (turn_loop-Goes system checked))

  pushed_user :
      (content : List UserContent) (a : Agent env)
      → Pushes c env s setup (user content) a.loop (push_message env (user content) a.loop)
  pushed_user content a =
      push_message-Pushes c env s setup (user content) a.loop a.loop
        (Quiet-refl c env s setup a.loop)

  -- Whatever the provider, the tools and the human answer, and however the turn ends, the session
  -- after it is the session with the user's message after a turn of at most 25 responses: each one
  -- is the last, or it asks for tools and one result for each of its calls follows, in order. In
  -- between, the conversation is replaced only by a summary, an acknowledgement and the recent part
  -- of a split of the session.
  pub run_turn-refines :
      (content : List UserContent) (a : Agent env)
      → Turn max_iterations
          (push (user content) a.loop.session).0
          (run_turn c env s setup content a).1.loop.session
  run_turn-refines content a = rw (← (pushed_user content a).0) (run_turn-Goes content a).0

  run_turn-IsRun :
      (content : List UserContent) (a : Agent env)
      → IsRun env
          (IsSanctioned c env s setup)
          max_iterations
          a.loop
          (run_turn c env s setup content a).1.loop
  run_turn-IsRun content a =
      let pushed = push_message env (user content) a.loop in
      IsRun-trans env (IsSanctioned c env s setup) 0 max_iterations max_iterations a.loop pushed
        (run_turn c env s setup content a).1.loop (omega arith)
        (Does-IsRun env (IsSanctioned c env s setup) a.loop pushed (pushed_user content a).1)
        (run_turn-Goes content a).1

  -- A turn executes a tool only for a call that stands in a response of the provider to an
  -- inference, with the token of the policy's decision to allow that call or, if the decision is to
  -- escalate, the one for the human's approval; or it executes the memory tool to promote a fact,
  -- with the token of the policy's decision to allow that.
  pub run_turn-gated :
      (content : List UserContent) (a : Agent env)
      → (done : List (Effect c.Number)) × ((run_turn c env s setup content a).1.loop.effects
          ≡ a.loop.effects ++ done)
        × All (Allowed (IsSanctioned c env s setup)) done
  run_turn-gated content a =
      let (done, grown, allowed, few) = run_turn-IsRun content a in (done, grown, allowed)

  -- A turn calls the provider for at most 25 inferences.
  pub run_turn-inferences :
      (content : List UserContent) (a : Agent env)
      → (done : List (Effect c.Number)) × ((run_turn c env s setup content a).1.loop.effects
          ≡ a.loop.effects ++ done)
        × (inferences done ≤ max_iterations)
  run_turn-inferences content a =
      let (done, grown, allowed, few) = run_turn-IsRun content a in (done, grown, few)

module _ {N : Type 0} where
  push_all-IsNumbered :
      (messages : List (Message N)) (session : Session N)
      → IsNumbered session
      → IsNumbered (push_all messages session)
  push_all-IsNumbered [] session h = h
  push_all-IsNumbered (m ∷ messages) session h =
      push_all-IsNumbered messages (push m session).0 (push-IsNumbered session m h)

  Turn-IsNumbered :
      (n : ℕ) (session session' : Session N)
      → Turn n session session'
      → IsNumbered session
      → IsNumbered session'
  Turn-IsNumbered n session session' (broken_off m x) h = h
  Turn-IsNumbered n session session' (replied m x content stop_reason e) h =
      push-IsNumbered x (assistant content stop_reason) h
  Turn-IsNumbered n session session' (round m x x' content results e t) h =
      Turn-IsNumbered m _ x' t (
        push_all-IsNumbered results (push (assistant content StopReason.tool_use) x).0
          (push-IsNumbered x (assistant content StopReason.tool_use) h))
  Turn-IsNumbered n session session' (compacted m x x' old recent summary ack e t) h =
      Turn-IsNumbered m _ x' t (apply_compaction-IsNumbered x summary ack recent)

-- A turn keeps a session numbered: if the next ordinal is the count of the messages, as an i32,
-- it is that also after the turn.
pub run_turn-IsNumbered :
    (c : Crates) (env : Env c.Number) (s : Surroundings c env) (setup : Setup c)
    (content : List UserContent) (a : Agent env)
    → IsNumbered a.loop.session
    → IsNumbered (run_turn c env s setup content a).1.loop.session
run_turn-IsNumbered c env s setup content a h =
    Turn-IsNumbered max_iterations _ _ (run_turn-refines c env s setup content a)
      (push-IsNumbered a.loop.session (user content) h)
