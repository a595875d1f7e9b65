-- ===== src/Tests/Messages.antt =====
-- Sessions, providers, retries and token estimates.
use cherub.Base.{
  ℕ, ◌+◌, ◌*◌, ◌-◌, ◌≡◌, refl, true, false, none, some, [], ◌∷◌, arith, if◌then◌else◌, leb, ltb,
  length, get_elem?, zero, suc, List,
}
use cherub.Base.Bytes.{Str, lit}
use cherub.Base.Result.{ok, err}
use cherub.Json.{Value}
use cherub.Providers.{provider, user_text, tool_result}
use cherub.Providers.Failover.{is_open, Attempt}
use cherub.Providers.Failover.Breaker.{fail_times, fail_times-opens}
use cherub.Runtime.Session.{Session, as_i32, push, persist_last, split_for_compaction}
use cherub.Runtime.Session.Ordinals.{
  IsNumbered, IsReachable, IsReachable-IsNumbered, persist_last-push,
}
use cherub.Runtime.Session.{apply_compaction, new}
use cherub.Runtime.Session.Compaction.{IsSplit, split_for_compaction-IsSplit}
use cherub.Retry
use cherub.Telegram.{max_message_len, split_message}
use cherub.Telegram.Chunks.{is_ascii, IsChunks, split_message-IsChunks}
use cherub.Runtime.Tokens.{as_u32, text_tokens, estimate_tokens}
use cherub.Runtime.Tokens.Additive.{tools_weight, messages_weight, estimate_tokens-weight}

abbrev up : Attempt Str
up = record {
  circuit = record { consecutive_failures = 1; opened_at = none };
  checked_at = 70;
  answer = ok (lit "hi");
  failed_at = 71;
}

abbrev down : Attempt Str
down = record {
  circuit = record { consecutive_failures = 2; opened_at = none };
  checked_at = 60;
  answer = err (provider (lit "503"));
  failed_at = 65;
}

abbrev open_attempt : Attempt Str
open_attempt = record {
  circuit = record { consecutive_failures = 3; opened_at = some 50 };
  checked_at = 55;
  answer = ok (lit "no");
  failed_at = 56;
}

fail_times-opens_example :
    is_open (fail_times 3 (λ i. i * 10) 3) 60000 500
    ≡ (if leb 3 3 then ltb (500 - 20) 60000 else false)
fail_times-opens_example = fail_times-opens 3 60000 (λ i. i * 10) 2 500 (omega arith) (omega arith)

abbrev chat : Session ℕ
chat = record {
  id = 7;
  user_id = lit "u";
  messages =
      user_text (lit "a")
      ∷ tool_result (lit "1") (lit "b") false
      ∷ user_text (lit "c")
      ∷ tool_result (lit "2") (lit "d") false
      ∷ [];
  next_ordinal = 4;
  compaction_count = 0;
  has_store = true;
}

split_for_compaction-IsSplit_example : IsSplit chat.messages 1 (split_for_compaction chat 1)
split_for_compaction-IsSplit_example = split_for_compaction-IsSplit chat 1 (omega arith)

persist_last-push_example :
    (persist_last (push (user_text (lit "e")) chat).0
      ≡ some (7, (push (user_text (lit "e")) chat).1, user_text (lit "e")))
    × ((push (user_text (lit "e")) chat).1 ≡ as_i32 (length chat.messages))
    × (get_elem? (push (user_text (lit "e")) chat).0.messages (length chat.messages)
        ≡ some (user_text (lit "e")))
    × IsNumbered (push (user_text (lit "e")) chat).0
persist_last-push_example = persist_last-push chat (user_text (lit "e")) refl refl

-- At 32 attempts the shift of the delay has wrapped.
backoff_runs : Retry.backoff Retry.new 32 ≡ Retry.from_secs 1
unfolding Retry.backoff Retry.new
backoff_runs = refl

abbrev toy_len : Value ℕ → ℕ
toy_len v = 9

estimate_tokens-weight_example :
    as_u32 (estimate_tokens toy_len (lit "be brief") chat.messages [])
    ≡ as_u32 (
        text_tokens (lit "be brief")
        + (tools_weight toy_len [] + messages_weight toy_len chat.messages))
estimate_tokens-weight_example = estimate_tokens-weight toy_len (lit "be brief") chat.messages []

abbrev repeated : ℕ → Str
repeated zero = []
repeated (suc n) = b'a' ∷ repeated n

repeated_ascii : (n : ℕ) → is_ascii (repeated n) ≡ true
repeated_ascii zero = refl
repeated_ascii (suc n) = repeated_ascii n

split_message-IsChunks_example :
    (chunks : List Str) × (split_message (repeated 5000) ≡ some chunks)
    × IsChunks max_message_len (repeated 5000) chunks
split_message-IsChunks_example = split_message-IsChunks (repeated 5000) (repeated_ascii 5000)

abbrev pushed_one : Session ℕ
pushed_one = (push (user_text (lit "a")) (new 7 (lit "u"))).0

abbrev pushed_two : Session ℕ
pushed_two =
    (push (user_text (lit "c"))
      (apply_compaction (user_text (lit "a")) (user_text (lit "b")) [] pushed_one)).0

pushed_two-IsReachable : IsReachable pushed_two
pushed_two-IsReachable =
    IsReachable.pushed (user_text (lit "c"))
      (apply_compaction (user_text (lit "a")) (user_text (lit "b")) [] pushed_one)
      (IsReachable.compacted (user_text (lit "a")) (user_text (lit "b")) [] pushed_one (
        IsReachable.pushed (user_text (lit "a")) (new 7 (lit "u")) (IsReachable.fresh 7 (lit "u"))))

IsReachable-IsNumbered_example : IsNumbered pushed_two
IsReachable-IsNumbered_example = IsReachable-IsNumbered pushed_two pushed_two-IsReachable
