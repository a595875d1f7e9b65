-- ===== src/Providers/OpenaiWire/Replay.antt =====
-- providers/openai_wire.rs: a response that is taken up into the conversation and sent again.
use cherub.Base.{◌≡◌, refl, ap, ◌∙◌, Option, none, some, List, [], ◌∷◌, ◌++◌, map, All}
use cherub.Base.Bytes.{Str}
use cherub.Json.{Value}
use cherub.Providers.{assistant, ContentBlock}
use cherub.Providers.OpenaiWire.{
  OaiToolCall, OaiContent, text_content, no_content, parts, OaiMessage, OaiResponseToolCall,
  OaiResponseMessage, OaiChoice, ChatCompletionResponse, some_calls, text_parts, call_parts,
  assistant_content_to_oai, message_to_oai, response_text, response_call, response_calls,
  choice_message, openai_response_to_message, stop_reason_of, finish_of, usage_of,
}

-- The model's own form of what is sent back to it.
abbrev pub echo_call : OaiToolCall → OaiResponseToolCall
echo_call call = record { id = call.id; name = call.name; arguments = call.arguments }

abbrev pub echo_calls : Option (List OaiToolCall) → Option (List OaiResponseToolCall)
echo_calls none = none
echo_calls (some calls) = some (map echo_call calls)

abbrev pub echo_content : OaiContent → Option Str
echo_content (text_content t) = some t
echo_content no_content = none
echo_content (parts ps) = none

abbrev pub echo : OaiMessage → OaiResponseMessage
echo m = record { content = echo_content m.content; tool_calls = echo_calls m.tool_calls }

-- The finish reason and the calls of the response.
abbrev pub first_finish : List OaiChoice → Option Str
first_finish [] = none
first_finish (choice ∷ choices) = choice.finish_reason

abbrev pub calls_in : Option (List OaiResponseToolCall) → List OaiResponseToolCall
calls_in none = []
calls_in (some calls) = calls

abbrev pub first_calls : List OaiChoice → List OaiResponseToolCall
first_calls [] = []
first_calls (choice ∷ choices) = calls_in choice.message.tool_calls

module _ {N : Type 0} (to_string : Value N → Str) (from_str : Str → Value N) where
  -- The arguments of the call are read, written and read again without a change.
  abbrev pub IsStable : OaiResponseToolCall → Type 0
  IsStable call = from_str (to_string (from_str call.arguments)) ≡ from_str call.arguments

  text_parts-calls :
      (calls : List OaiResponseToolCall) → text_parts (map (response_call from_str) calls) ≡ []
  text_parts-calls [] = refl
  text_parts-calls (call ∷ calls) = text_parts-calls calls

  echo-call_parts :
      (calls : List OaiResponseToolCall)
      → All IsStable calls
      → map
          (response_call from_str)
          (map echo_call (call_parts to_string (map (response_call from_str) calls)))
        ≡ map (response_call from_str) calls
  echo-call_parts [] h = refl
  echo-call_parts (call ∷ calls) h = rw (h.0, echo-call_parts calls h.1) refl

  echo-some_calls :
      (calls : List OaiToolCall)
      → response_calls from_str (echo_calls (some_calls calls))
        ≡ map (response_call from_str) (map echo_call calls)
  echo-some_calls [] = refl
  echo-some_calls (call ∷ calls) = refl

  -- The content that is sent is read back.
  echo-content :
      (content : Option Str) (calls : List OaiResponseToolCall) (text : List (ContentBlock N))
      → text ≡ response_text content
      → All IsStable calls
      → response_text {N = N} (
            echo_content
              (assistant_content_to_oai to_string (text ++ map (response_call from_str) calls)).0)
          ++ response_calls from_str (
              echo_calls (
                some_calls
                  (assistant_content_to_oai to_string
                    (text ++ map (response_call from_str) calls)).1))
        ≡ text ++ map (response_call from_str) calls
  unfolding assistant_content_to_oai
  echo-content none calls text e h =
      rw (e, text_parts-calls calls)
        (echo-some_calls (call_parts to_string (map (response_call from_str) calls))
          ∙ echo-call_parts calls h)
  echo-content (some []) calls text e h =
      rw (e, text_parts-calls calls)
        (echo-some_calls (call_parts to_string (map (response_call from_str) calls))
          ∙ echo-call_parts calls h)
  echo-content (some (b ∷ bs)) calls text e h =
      rw (e, text_parts-calls calls)
        (ap (λ r. ContentBlock.text (b ∷ bs) ∷ r)
          (echo-some_calls (call_parts to_string (map (response_call from_str) calls))
            ∙ echo-call_parts calls h))

  calls_in-map :
      (calls : Option (List OaiResponseToolCall))
      → response_calls from_str calls ≡ map (response_call from_str) (calls_in calls)
  calls_in-map none = refl
  calls_in-map (some calls) = refl

  choice_message-echo :
      (choices : List OaiChoice)
      → All IsStable (first_calls choices)
      → choice_message from_str (
          record {
            message = echo (message_to_oai to_string (choice_message from_str choices));
            finish_reason = first_finish choices;
          }
          ∷ [])
        ≡ choice_message from_str choices
  unfolding message_to_oai assistant_content_to_oai
  choice_message-echo [] h = refl
  choice_message-echo (choice ∷ choices) h = rw (calls_in-map choice.message.tool_calls) (
      ap (λ content. assistant content (stop_reason_of (finish_of choice.finish_reason)))
        (echo-content choice.message.content (calls_in choice.message.tool_calls)
          (response_text choice.message.content) refl h))

  -- Let the arguments of the calls in the first choice of a response be such that reading, writing
  -- and reading them again changes nothing. If the model gives back, in a response with the same
  -- finish reason, the message by which that response is sent to it, then this is taken up as the
  -- same message, with the same usage: no text, call, id or argument is lost or reordered.
  pub openai_response_to_message-echo :
      (resp : ChatCompletionResponse)
      → All IsStable (first_calls resp.choices)
      → openai_response_to_message from_str (record {
        choices =
            record {
              message =
                  echo (message_to_oai to_string (openai_response_to_message from_str resp).0);
              finish_reason = first_finish resp.choices;
            }
            ∷ [];
        usage = resp.usage;
      })
        ≡ openai_response_to_message from_str resp
  unfolding openai_response_to_message
  openai_response_to_message-echo resp h =
      ap (λ m. (m, usage_of resp.usage)) (choice_message-echo resp.choices h)
