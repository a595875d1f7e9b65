-- ===== src/Providers/OpenaiWire.antt =====
-- providers/openai_wire.rs: messages as the OpenAI API takes them, and responses as it gives them.
pub mod Replay
use cherub.Base.{ℕ, Bool, Option, none, some, List, [], ◌∷◌, ◌++◌, map, if◌then◌else◌, is_empty}
use cherub.Base.Bytes.{Str, lit, str_eq}
use cherub.Json.{Value}
use cherub.Providers.{
  Message, user, assistant, tool_result, UserContent, ContentBlock, StopReason, end_turn,
  max_tokens, ApiUsage,
}
use cherub.Runtime.Prompt.{join, newline}

-- `OaiToolCall` with its `OaiFunction`; the response's own types of calls have the same parts.
pub record OaiToolCall : Type 0 where
  pub id : Str
  pub call_type : Str
  pub name : Str
  pub arguments : Str

pub data OaiContentPart : Type 0 where
  text_part image_url : Str → OaiContentPart

pub data OaiContent : Type 0 where
  text_content : Str → OaiContent
  no_content : OaiContent
  parts : List OaiContentPart → OaiContent

pub record OaiMessage : Type 0 where
  pub role : Str
  pub content : OaiContent
  pub tool_calls : Option (List OaiToolCall)
  pub tool_call_id : Option Str

pub record OaiResponseToolCall : Type 0 where
  pub id : Str
  pub name : Str
  pub arguments : Str

pub record OaiResponseMessage : Type 0 where
  pub content : Option Str
  pub tool_calls : Option (List OaiResponseToolCall)

pub record OaiChoice : Type 0 where
  pub message : OaiResponseMessage
  pub finish_reason : Option Str

pub record OaiUsage : Type 0 where
  pub prompt_tokens : ℕ
  pub completion_tokens : ℕ

pub record ChatCompletionResponse : Type 0 where
  pub choices : List OaiChoice
  pub usage : Option OaiUsage

-- The closure that `user_content_to_oai` maps over the items.
abbrev pub content_part : UserContent → OaiContentPart
content_part (UserContent.text t) = text_part t
content_part (UserContent.image media_type image_data) =
    image_url (lit "data:" ++ media_type ++ lit ";base64," ++ image_data)

unfoldable pub user_content_to_oai : List UserContent → OaiContent
user_content_to_oai (UserContent.text t ∷ []) = text_content t
user_content_to_oai content = parts (map content_part content)

abbrev pub usage_of : Option OaiUsage → Option ApiUsage
usage_of none = none
usage_of (some u) = some (record {
  input_tokens = u.prompt_tokens;
  output_tokens = u.completion_tokens;
  cache_creation_tokens = 0;
  cache_read_tokens = 0;
})

-- `finish_reason.as_deref().unwrap_or("stop")`, and the stop reason for it.
abbrev pub finish_of : Option Str → Str
finish_of none = lit "stop"
finish_of (some s) = s

abbrev pub stop_reason_of : Str → StopReason
stop_reason_of s =
    if str_eq s (lit "tool_calls")
    then StopReason.tool_use
    else if str_eq s (lit "length")
    then max_tokens
    else end_turn

-- The calls, if there are any.
abbrev pub some_calls : List OaiToolCall → Option (List OaiToolCall)
some_calls [] = none
some_calls (call ∷ calls) = some (call ∷ calls)

module _ {N : Type 0} where
  -- The loop of `assistant_content_to_oai`, by what it collects.
  abbrev pub text_parts : List (ContentBlock N) → List Str
  text_parts [] = []
  text_parts (ContentBlock.text t ∷ content) = t ∷ text_parts content
  text_parts (ContentBlock.tool_use id name input ∷ content) = text_parts content

  -- The content of a response: the text if it is not empty, then the calls.
  abbrev pub response_text : Option Str → List (ContentBlock N)
  response_text none = []
  response_text (some t) = if is_empty t then [] else ContentBlock.text t ∷ []

-- serde_json's `to_string` and `from_str` are given, with the defaults that the code has for their
-- errors: the empty text and null.
module _ {N : Type 0} (to_string : Value N → Str) where
  abbrev pub call_parts : List (ContentBlock N) → List OaiToolCall
  call_parts [] = []
  call_parts (ContentBlock.text t ∷ content) = call_parts content
  call_parts (ContentBlock.tool_use id name input ∷ content) =
      record { id = id; call_type = lit "function"; name = name; arguments = to_string input }
      ∷ call_parts content

  unfoldable pub assistant_content_to_oai : List (ContentBlock N) → OaiContent × List OaiToolCall
  assistant_content_to_oai content = (
    if is_empty (text_parts content)
        then no_content
        else text_content (join newline (text_parts content)),
    call_parts content,
  )

  -- The body of the loop of `messages_to_openai_wire`.
  unfoldable pub message_to_oai : Message N → OaiMessage
  unfolding user_content_to_oai assistant_content_to_oai
  message_to_oai (user content) = record {
    role = lit "user";
    content = user_content_to_oai content;
    tool_calls = none;
    tool_call_id = none;
  }
  message_to_oai (assistant content stop_reason) =
      let (text_parts, tool_calls) = assistant_content_to_oai content in
      record {
        role = lit "assistant";
        content = text_parts;
        tool_calls = some_calls tool_calls;
        tool_call_id = none;
      }
  message_to_oai (tool_result id content is_error) = record {
    role = lit "tool";
    content = text_content content;
    tool_calls = none;
    tool_call_id = some id;
  }

  unfoldable pub messages_to_openai_wire : Str → List (Message N) → List OaiMessage
  unfolding message_to_oai
  messages_to_openai_wire system messages =
      record {
        role = lit "system";
        content = text_content system;
        tool_calls = none;
        tool_call_id = none;
      }
      ∷ map message_to_oai messages

module _ {N : Type 0} (from_str : Str → Value N) where
  abbrev pub response_call : OaiResponseToolCall → ContentBlock N
  response_call call = ContentBlock.tool_use call.id call.name (from_str call.arguments)

  abbrev pub response_calls : Option (List OaiResponseToolCall) → List (ContentBlock N)
  response_calls none = []
  response_calls (some calls) = map response_call calls

  abbrev pub choice_message : List OaiChoice → Message N
  choice_message [] = assistant [] end_turn
  choice_message (choice ∷ choices) =
      assistant (response_text choice.message.content ++ response_calls choice.message.tool_calls)
        (stop_reason_of (finish_of choice.finish_reason))

  unfoldable pub openai_response_to_message : ChatCompletionResponse → Message N × Option ApiUsage
  openai_response_to_message resp = (choice_message resp.choices, usage_of resp.usage)
