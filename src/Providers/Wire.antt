-- ===== src/Providers/Wire.antt =====
-- providers/wire.rs: messages as the Anthropic API takes them, and responses as it gives them.
pub mod RoundTrip
use cherub.Base.{ℕ, Bool, Option, none, some, List, [], ◌∷◌, ◌++◌, map, if◌then◌else◌, is_empty}
use cherub.Base.Bytes.{Str, lit, str_eq}
use cherub.Json.{Value}
use cherub.Providers.{
  Message, user, assistant, UserContent, ContentBlock, StopReason, end_turn, max_tokens, ApiUsage,
}

pub data WireContentBlock (N : Type 0) : Type 0 where
  text : Str → WireContentBlock N
  tool_use : Str → Str → Value N → WireContentBlock N
  tool_result : Str → Str → Bool → WireContentBlock N
  -- `Image` with its `WireImageSource`: the type of the source, the media type, the data.
  image : Str → Str → Str → WireContentBlock N

pub data WireContent (N : Type 0) : Type 0 where
  text : Str → WireContent N
  blocks : List (WireContentBlock N) → WireContent N

pub record WireMessage (N : Type 0) : Type 0 where
  pub role : Str
  pub content : WireContent N

pub data ResponseContentBlock (N : Type 0) : Type 0 where
  text : Str → ResponseContentBlock N
  tool_use : Str → Str → Value N → ResponseContentBlock N

pub record WireUsage : Type 0 where
  pub input_tokens : ℕ
  pub output_tokens : ℕ
  pub cache_creation_input_tokens : ℕ
  pub cache_read_input_tokens : ℕ

pub record ResponseBody (N : Type 0) : Type 0 where
  pub content : List (ResponseContentBlock N)
  pub stop_reason : Str
  pub usage : Option WireUsage

abbrev pub stop_reason_of : Str → StopReason
stop_reason_of s =
    if str_eq s (lit "tool_use")
    then StopReason.tool_use
    else if str_eq s (lit "max_tokens")
    then max_tokens
    else end_turn

abbrev pub usage_of : Option WireUsage → Option ApiUsage
usage_of none = none
usage_of (some u) = some (record {
  input_tokens = u.input_tokens;
  output_tokens = u.output_tokens;
  cache_creation_tokens = u.cache_creation_input_tokens;
  cache_read_tokens = u.cache_read_input_tokens;
})

module _ {N : Type 0} where
  -- The closure that `user_content_to_wire` maps over the items.
  abbrev pub user_block : UserContent → WireContentBlock N
  user_block (UserContent.text t) = WireContentBlock.text t
  user_block (UserContent.image media_type image_data) =
      WireContentBlock.image (lit "base64") media_type image_data

  -- A single text is a plain text.
  unfoldable pub user_content_to_wire : List UserContent → WireContent N
  user_content_to_wire (UserContent.text t ∷ []) = WireContent.text t
  user_content_to_wire content = WireContent.blocks (map user_block content)

  -- The closure that `messages_to_wire` maps over an assistant's blocks.
  abbrev pub assistant_block : ContentBlock N → WireContentBlock N
  assistant_block (ContentBlock.text t) = WireContentBlock.text t
  assistant_block (ContentBlock.tool_use id name input) = WireContentBlock.tool_use id name input

  unfoldable pub flush_results :
      List (WireMessage N) → List (WireContentBlock N) → List (WireMessage N)
  flush_results wire pending =
      if is_empty pending
      then wire
      else wire ++ record { role = lit "user"; content = WireContent.blocks pending } ∷ []

  -- The loop of `messages_to_wire`, with its two variables.
  unfoldable pub wire_from :
      List (WireMessage N) → List (WireContentBlock N) → List (Message N) → List (WireMessage N)
  unfolding user_content_to_wire flush_results
  wire_from wire pending [] = flush_results wire pending
  wire_from wire pending (user content ∷ messages) =
      wire_from
        (flush_results wire pending
          ++ record { role = lit "user"; content = user_content_to_wire content } ∷ [])
        [] messages
  wire_from wire pending (assistant content stop_reason ∷ messages) =
      wire_from
        (flush_results wire pending
          ++ record {
            role = lit "assistant";
            content = WireContent.blocks (map assistant_block content);
          }
            ∷ [])
        [] messages
  wire_from wire pending (Message.tool_result tool_use_id content is_error ∷ messages) =
      wire_from wire (pending ++ WireContentBlock.tool_result tool_use_id content is_error ∷ [])
        messages

  unfoldable pub messages_to_wire : List (Message N) → List (WireMessage N)
  unfolding wire_from
  messages_to_wire messages = wire_from [] [] messages

  abbrev pub response_block : ResponseContentBlock N → ContentBlock N
  response_block (ResponseContentBlock.text t) = ContentBlock.text t
  response_block (ResponseContentBlock.tool_use id name input) = ContentBlock.tool_use id name input

  unfoldable pub response_to_message : ResponseBody N → Message N × Option ApiUsage
  response_to_message resp = (
    assistant (map response_block resp.content) (stop_reason_of resp.stop_reason),
    usage_of resp.usage,
  )
