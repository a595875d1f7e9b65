-- ===== src/Runtime/Tokens/Additive.antt =====
-- runtime/tokens.rs: the estimate as a sum over the parts of a call.
use cherub.Base.{ℕ, ◌+◌, ◌/◌, ◌≡◌, ◌∙◌, List, [], ◌∷◌, length, arith}
use cherub.Base.Bytes.{Str}
use cherub.Json.{Value}
use cherub.Providers.{Message, user, assistant, tool_result, UserContent, ContentBlock}
use cherub.Runtime.Tokens.{
  as_u32, ToolDefinition, text_tokens, json_tokens, tool_tokens, user_tokens, block_tokens,
  message_tokens, messages_tokens, estimate_tokens,
}

add_u32 : (a b c : ℕ) → as_u32 (as_u32 (a + b) + c) ≡ as_u32 (a + (b + c))
add_u32 a b c = omega arith

-- What the parts of a message and of a call count for, without a bound.
abbrev pub user_weight : List UserContent → ℕ
user_weight [] = 0
user_weight (UserContent.text text ∷ content) = text_tokens text + user_weight content
user_weight (UserContent.image media_type data_ ∷ content) = 1000 + user_weight content

module _ {N : Type 0} (value_len : Value N → ℕ) where
  abbrev pub block_weight : List (ContentBlock N) → ℕ
  block_weight [] = 0
  block_weight (ContentBlock.text text ∷ content) = text_tokens text + block_weight content
  block_weight (ContentBlock.tool_use id name input ∷ content) =
      text_tokens name + (json_tokens value_len input + block_weight content)

  abbrev pub message_weight : Message N → ℕ
  message_weight (user content) = 4 + user_weight content
  message_weight (assistant content stop_reason) = 4 + block_weight content
  message_weight (tool_result id content is_error) = 4 + as_u32 (length content) / 3

  abbrev pub messages_weight : List (Message N) → ℕ
  messages_weight [] = 0
  messages_weight (msg ∷ messages) = message_weight msg + messages_weight messages

  abbrev pub tools_weight : List (ToolDefinition N) → ℕ
  tools_weight [] = 0
  tools_weight (tool ∷ tools) =
      text_tokens tool.name
      + (text_tokens tool.description
          + (json_tokens value_len tool.input_schema + tools_weight tools))

module _ {N : Type 0} (value_len : Value N → ℕ) where
  user_tokens-weight :
      (total : ℕ) (content : List UserContent)
      → as_u32 (user_tokens value_len total content) ≡ as_u32 (total + user_weight content)
  user_tokens-weight total [] = omega arith
  user_tokens-weight total (UserContent.text text ∷ content) =
      user_tokens-weight (as_u32 (total + text_tokens text)) content
      ∙ add_u32 total (text_tokens text) (user_weight content)
  user_tokens-weight total (UserContent.image m d ∷ content) =
      user_tokens-weight (as_u32 (total + 1000)) content ∙ add_u32 total 1000 (user_weight content)

  block_tokens-weight :
      (total : ℕ) (content : List (ContentBlock N))
      → as_u32 (block_tokens value_len total content)
        ≡ as_u32 (total + block_weight value_len content)
  block_tokens-weight total [] = omega arith
  block_tokens-weight total (ContentBlock.text text ∷ content) =
      block_tokens-weight (as_u32 (total + text_tokens text)) content
      ∙ add_u32 total (text_tokens text) (block_weight value_len content)
  block_tokens-weight total (ContentBlock.tool_use id name input ∷ content) =
      block_tokens-weight (as_u32 (as_u32 (total + text_tokens name) + json_tokens value_len input))
        content
      ∙ add_u32 (as_u32 (total + text_tokens name)) (json_tokens value_len input)
          (block_weight value_len content)
      ∙ add_u32 total (text_tokens name)
          (json_tokens value_len input + block_weight value_len content)

  message_tokens-weight :
      (total : ℕ) (msg : Message N)
      → as_u32 (message_tokens value_len total msg) ≡ as_u32 (total + message_weight value_len msg)
  message_tokens-weight total (user content) =
      user_tokens-weight (as_u32 (total + 4)) content ∙ add_u32 total 4 (user_weight content)
  message_tokens-weight total (assistant content stop_reason) =
      block_tokens-weight (as_u32 (total + 4)) content
      ∙ add_u32 total 4 (block_weight value_len content)
  message_tokens-weight total (tool_result id content is_error) =
      add_tool total (as_u32 (length content) / 3)
    where
      add_tool : (a b : ℕ) → as_u32 (as_u32 (as_u32 (a + 4) + b)) ≡ as_u32 (a + (4 + b))
      add_tool a b = omega arith

  add_weight : (a t w v : ℕ) → as_u32 a ≡ as_u32 (t + w) → as_u32 (a + v) ≡ as_u32 (t + (w + v))
  add_weight a t w v h = omega arith

  messages_tokens-weight :
      (total : ℕ) (messages : List (Message N))
      → as_u32 (messages_tokens value_len total messages)
        ≡ as_u32 (total + messages_weight value_len messages)
  messages_tokens-weight total [] = omega arith
  messages_tokens-weight total (msg ∷ messages) =
      messages_tokens-weight (message_tokens value_len total msg) messages
      ∙ add_weight (message_tokens value_len total msg) total (message_weight value_len msg)
          (messages_weight value_len messages) (message_tokens-weight total msg)

  tool_tokens-weight :
      (total : ℕ) (tools : List (ToolDefinition N))
      → as_u32 (tool_tokens value_len total tools) ≡ as_u32 (total + tools_weight value_len tools)
  tool_tokens-weight total [] = omega arith
  tool_tokens-weight total (tool ∷ tools) =
      let n = text_tokens tool.name in
      let d = text_tokens tool.description in
      let j = json_tokens value_len tool.input_schema in
      let rest = tools_weight value_len tools in
      tool_tokens-weight (as_u32 (as_u32 (as_u32 (total + n) + d) + j)) tools
      ∙ add_u32 (as_u32 (as_u32 (total + n) + d)) j rest
      ∙ add_u32 (as_u32 (total + n)) d (j + rest)
      ∙ add_u32 total n (d + (j + rest))

  -- The estimate of a call is, modulo 2^32, the plain sum of what the system prompt, the tools and
  -- the messages count for, in whatever order the code adds and wraps.
  pub estimate_tokens-weight :
      (system : Str) (messages : List (Message N)) (tools : List (ToolDefinition N))
      → as_u32 (estimate_tokens value_len system messages tools)
        ≡ as_u32 (
            text_tokens system
            + (tools_weight value_len tools + messages_weight value_len messages))
  unfolding estimate_tokens
  estimate_tokens-weight system messages tools =
      messages_tokens-weight (tool_tokens value_len (text_tokens system) tools) messages
      ∙ add_weight (tool_tokens value_len (text_tokens system) tools) (text_tokens system)
          (tools_weight value_len tools) (messages_weight value_len messages)
          (tool_tokens-weight (text_tokens system) tools)
