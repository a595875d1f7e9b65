-- ===== src/Runtime/Session/Ordinals.antt =====
-- runtime/session.rs: the ordinals of messages, and what the store is given.
use cherub.Base.{
  ℕ, ◌≡◌, refl, true, some, List, [], ◌∷◌, ◌++◌, length, length-append, get_elem?, arith,
}
use cherub.Providers.{Message}
use cherub.Base.Bytes.{Str}
use cherub.Runtime.Session.{
  Session, as_i32, new, from_persisted, push, last?, persist_last, apply_compaction,
}

-- The next ordinal is the count of the messages, as an i32.
abbrev pub IsNumbered : {N : Type 0} → Session N → Type 0
IsNumbered s = s.next_ordinal ≡ as_i32 (length s.messages)

module _ {N : Type 0} where
  -- Pushing a message keeps a session numbered.
  pub push-IsNumbered : (s : Session N) (m : Message N) → IsNumbered s → IsNumbered (push m s).0
  unfolding push
  push-IsNumbered s m h = omega (arith, length-append s.messages (m ∷ []))

  pub apply_compaction-IsNumbered :
      (s : Session N) (u a : Message N) (recent : List (Message N))
      → IsNumbered (apply_compaction u a recent s)
  unfolding apply_compaction
  apply_compaction-IsNumbered s u a recent = refl

  last?-append : (ms : List (Message N)) (m : Message N) → last? (ms ++ m ∷ []) ≡ some m
  last?-append [] m = refl
  last?-append (x ∷ ms) m = rw (last?-append ms m)

  get_elem?-append :
      (ms : List (Message N)) (m : Message N) → get_elem? (ms ++ m ∷ []) (length ms) ≡ some m
  get_elem?-append [] m = refl
  get_elem?-append (x ∷ ms) m = get_elem?-append ms m

  -- Pushing a message to a numbered session returns the message's position as its ordinal, and with
  -- a store attached `persist_last` then writes that message under that ordinal; the session stays
  -- numbered.
  pub persist_last-push :
      (s : Session N) (m : Message N)
      → IsNumbered s
      → s.has_store ≡ true
      → (persist_last (push m s).0 ≡ some (s.id, (push m s).1, m))
        × ((push m s).1 ≡ as_i32 (length s.messages))
        × (get_elem? (push m s).0.messages (length s.messages) ≡ some m)
        × IsNumbered (push m s).0
  unfolding push persist_last
  persist_last-push s m h store = (
    rw (store, last?-append s.messages m) (ground arith),
    h,
    get_elem?-append s.messages m,
    omega (arith, length-append s.messages (m ∷ [])),
  )

  -- The sessions that the operations can build.
  pub data IsReachable : Session N → Type 0 where
    fresh : (id : ℕ) (user_id : Str) → IsReachable (new id user_id)
    restored :
        (id : ℕ) (messages : List (Message N)) (user_id : Str)
        → IsReachable (from_persisted id messages user_id)
    pushed : (m : Message N) (s : Session N) → IsReachable s → IsReachable (push m s).0
    compacted :
        (summary_user summary_ack : Message N) (recent : List (Message N)) (s : Session N)
        → IsReachable s
        → IsReachable (apply_compaction summary_user summary_ack recent s)

  -- In every session that new sessions, restored ones, pushes and compactions can build, the next
  -- ordinal is the count of the messages, as an i32.
  pub IsReachable-IsNumbered : (s : Session N) → IsReachable s → IsNumbered s
  unfolding new from_persisted
  IsReachable-IsNumbered s (fresh id user_id) = refl
  IsReachable-IsNumbered s (restored id messages user_id) = refl
  IsReachable-IsNumbered s (pushed m before h) =
      push-IsNumbered before m (IsReachable-IsNumbered before h)
  IsReachable-IsNumbered s (compacted u a recent before h) =
      apply_compaction-IsNumbered before u a recent
