-- ===== src/Runtime/Tokens.antt =====
-- runtime/tokens.rs: the estimate of the tokens of a provider call, in u32 arithmetic that wraps.
pub mod Additive
use cherub.Base.{ℕ, ◌+◌, ◌/◌, ◌%◌, ◌^◌, Bool, true, false, List, [], ◌∷◌, if◌then◌else◌, length}
use cherub.Base.Bytes.{Str, lit, starts_with}
use cherub.Json.{Value}
use cherub.Providers.{Message, user, assistant, tool_result, UserContent, ContentBlock}

abbrev pub chars_per_token_text : ℕ
chars_per_token_text = 4

abbrev pub chars_per_token_json : ℕ
chars_per_token_json = 3

abbrev pub per_message_overhead : ℕ
per_message_overhead = 4

-- A u32, and the sum of two.
abbrev pub as_u32 : ℕ → ℕ
as_u32 n = n % 2 ^ 32

-- providers/mod.rs, `ToolDefinition`.
pub record ToolDefinition (N : Type 0) : Type 0 where
  pub name : Str
  pub description : Str
  pub input_schema : Value N

-- `(text.len() as u32) / CHARS_PER_TOKEN_TEXT`.
abbrev pub text_tokens : Str → ℕ
text_tokens text = as_u32 (length text) / chars_per_token_text

module _ {N : Type 0} (value_len : Value N → ℕ) where
  -- The length of a JSON value's text, as serde_json writes it, is the parameter.
  abbrev pub json_tokens : Value N → ℕ
  json_tokens v = as_u32 (value_len v) / chars_per_token_json

  abbrev pub tool_tokens : ℕ → List (ToolDefinition N) → ℕ
  tool_tokens total [] = total
  tool_tokens total (tool ∷ tools) =
      tool_tokens
        (as_u32 (
          as_u32 (as_u32 (total + text_tokens tool.name) + text_tokens tool.description)
          + json_tokens tool.input_schema))
        tools

  abbrev pub user_tokens : ℕ → List UserContent → ℕ
  user_tokens total [] = total
  user_tokens total (UserContent.text text ∷ content) =
      user_tokens (as_u32 (total + text_tokens text)) content
  user_tokens total (UserContent.image media_type data_ ∷ content) =
      user_tokens (as_u32 (total + 1000)) content

  abbrev pub block_tokens : ℕ → List (ContentBlock N) → ℕ
  block_tokens total [] = total
  block_tokens total (ContentBlock.text text ∷ content) =
      block_tokens (as_u32 (total + text_tokens text)) content
  block_tokens total (ContentBlock.tool_use id name input ∷ content) =
      block_tokens (as_u32 (as_u32 (total + text_tokens name) + json_tokens input)) content

  -- What a message adds to the total.
  abbrev pub message_tokens : ℕ → Message N → ℕ
  message_tokens total (user content) = user_tokens (as_u32 (total + per_message_overhead)) content
  message_tokens total (assistant content stop_reason) =
      block_tokens (as_u32 (total + per_message_overhead)) content
  message_tokens total (tool_result id content is_error) =
      as_u32
        (as_u32 (total + per_message_overhead) + as_u32 (length content) / chars_per_token_json)

  abbrev pub messages_tokens : ℕ → List (Message N) → ℕ
  messages_tokens total [] = total
  messages_tokens total (msg ∷ messages) = messages_tokens (message_tokens total msg) messages

  unfoldable pub estimate_tokens : Str → List (Message N) → List (ToolDefinition N) → ℕ
  estimate_tokens system messages tools =
      messages_tokens (tool_tokens (text_tokens system) tools) messages

unfoldable pub context_window_size : Str → ℕ
context_window_size model = if starts_with (lit "claude") model then 200000 else 100000
