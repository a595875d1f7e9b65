-- ===== src/Runtime/Session.antt =====
-- runtime/session.rs: the conversation, its ordinals, and its compaction.
pub mod Ordinals
pub mod Compaction
use cherub.Base.{
  ℕ, zero, suc, ◌+◌, ◌-◌, ◌%◌, ◌^◌, Bool, true, false, Option, none, some, List, [], ◌∷◌, ◌++◌,
  if◌then◌else◌, ltb, leb, ◌==◌, length, get_elem?, take, drop,
}
use cherub.Base.Bytes.{Str}
use cherub.Providers.{Message, is_user}

-- An i32, by its bit pattern: `as i32`, `+ 1` and `- 1`.
abbrev pub as_i32 : ℕ → ℕ
as_i32 n = n % 2 ^ 32

-- The id is a Uuid, which the session only passes on. `has_store` says whether a store is attached.
pub record Session (N : Type 0) : Type 0 where
  pub id : ℕ
  pub user_id : Str
  pub messages : List (Message N)
  pub next_ordinal : ℕ
  pub compaction_count : ℕ
  pub has_store : Bool

-- What `split_for_compaction` gives; an index out of range panics.
pub data Split (N : Type 0) : Type 0 where
  panics : Split N
  refused : Split N
  split : List (Message N) → List (Message N) → Split N

module _ {N : Type 0} where
  -- `Session::new`, with the id that `Uuid::now_v7` gives.
  unfoldable pub new : ℕ → Str → Session N
  new id user_id = record {
    id = id;
    user_id = user_id;
    messages = [];
    next_ordinal = 0;
    compaction_count = 0;
    has_store = false;
  }

  unfoldable pub from_persisted : ℕ → List (Message N) → Str → Session N
  from_persisted id messages user_id = record {
    id = id;
    user_id = user_id;
    messages = messages;
    next_ordinal = as_i32 (length messages);
    compaction_count = 0;
    has_store = true;
  }

  -- `push`: the new session and the ordinal of the message.
  unfoldable pub push : Message N → Session N → Session N × ℕ
  push message s = (
    record s { messages = s.messages ++ message ∷ []; next_ordinal = as_i32 (s.next_ordinal + 1) },
    s.next_ordinal,
  )

  abbrev pub last? : List (Message N) → Option (Message N)
  last? [] = none
  last? (m ∷ rest) = elim (last? rest) [ none ↦ some m | some l ↦ some l ]

  -- `persist_last`: the row that it asks the store to write, if any.
  unfoldable pub persist_last : Session N → Option (ℕ × ℕ × Message N)
  persist_last s =
      if s.has_store
      then elim (last? s.messages) [
        | none ↦ none
        | some message ↦ some (s.id, as_i32 (s.next_ordinal + 2 ^ 32 - 1), message)
      ]
      else none

  -- The loop of `split_for_compaction`: none is a panic.
  unfoldable pub walk_back : List (Message N) → ℕ → Option ℕ
  walk_back messages zero = some 0
  walk_back messages (suc k) = elim (get_elem? messages (suc k)) [
    | none ↦ none
    | some message ↦
        let further = walk_back messages k in if is_user message then some (suc k) else further
  ]

  -- What follows the loop, from the intended split and the one that was found.
  unfoldable pub split_at : List (Message N) → ℕ → ℕ → Split N
  split_at messages raw_split found =
      let at = (if found == 0 then raw_split else found) in
      if ltb at 2 then refused else split (take at messages) (drop at messages)

  unfoldable pub split_for_compaction : Session N → ℕ → Split N
  unfolding walk_back split_at
  split_for_compaction s preserve_recent =
      let raw_split = length s.messages - preserve_recent in
      if leb (length s.messages) (preserve_recent + 2)
      then refused
      else elim (walk_back s.messages raw_split) [
        | none ↦ panics
        | some found ↦ split_at s.messages raw_split found
      ]

  -- `apply_compaction`; the counter is a u32.
  unfoldable pub apply_compaction : Message N → Message N → List (Message N) → Session N → Session N
  apply_compaction summary_user summary_ack recent s = record s {
    messages = summary_user ∷ summary_ack ∷ recent;
    next_ordinal = as_i32 (length (summary_user ∷ summary_ack ∷ recent));
    compaction_count = as_i32 (s.compaction_count + 1);
  }

  -- `persist_compacted`: the rows that replace those of the session, if there is a store.
  unfoldable pub persist_compacted : Session N → Option (ℕ × List (Message N))
  persist_compacted s = if s.has_store then some (s.id, s.messages) else none
