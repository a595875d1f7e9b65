-- ===== src/Providers.antt =====
-- src/providers/mod.rs and src/error.rs: messages, usage and errors.
pub mod Failover
pub mod Wire
pub mod OpenaiWire
pub mod Config
use cherub.Base.{ℕ, Bool, true, false, Option, List, [], ◌∷◌}
use cherub.Base.Bytes.{Str}
use cherub.Json.{Value}

-- `CherubError` with its texts.
pub data CherubError : Type 0 where
  not_permitted : CherubError
  tool_execution provider invalid_invocation policy_load policy_validation config :
      Str → CherubError
  storage credential http wasm container mcp : Str → CherubError

pub data StopReason : Type 0 where
  end_turn tool_use max_tokens : StopReason

-- The counts are u32.
pub record ApiUsage : Type 0 where
  pub input_tokens : ℕ
  pub output_tokens : ℕ
  pub cache_creation_tokens : ℕ
  pub cache_read_tokens : ℕ

pub data UserContent : Type 0 where
  text : Str → UserContent
  image : Str → Str → UserContent

pub data ContentBlock (N : Type 0) : Type 0 where
  text : Str → ContentBlock N
  tool_use : Str → Str → Value N → ContentBlock N

pub data Message (N : Type 0) : Type 0 where
  user : List UserContent → Message N
  assistant : List (ContentBlock N) → StopReason → Message N
  tool_result : Str → Str → Bool → Message N

-- `Message::user_text`.
unfoldable pub user_text : {N : Type 0} → Str → Message N
user_text s = user (text s ∷ [])

-- `matches!(message, Message::User { .. })`.
abbrev pub is_user : {N : Type 0} → Message N → Bool
is_user (user content) = true
is_user (assistant content stop) = false
is_user (tool_result id content is_error) = false
