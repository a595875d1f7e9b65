-- ===== src/Runtime/Prompt.antt =====
-- runtime/prompt.rs and `extract_user_text` of runtime/mod.rs: the texts that the runtime makes of
-- messages and of memories.
use cherub.Base.{
  ℕ, zero, suc, ◌+◌, ◌/◌, ◌%◌, Bool, true, false, List, [], ◌∷◌, ◌++◌, if◌then◌else◌, is_empty, ltb,
  filter,
}
use cherub.Base.Bytes.{Str, lit}
use cherub.Json.{Value}
use cherub.Providers.{Message, user, assistant, tool_result, UserContent, ContentBlock}
use cherub.Storage.{Memory, SourceType, explicit, confirmed, inferred, source_str}

-- A line feed.
abbrev pub newline : Str
newline = 10 ∷ []

-- The dash of U+2014.
abbrev pub em_dash : Str
em_dash = 0xE2 ∷ 0x80 ∷ 0x94 ∷ []

-- `texts.join(separator)`.
abbrev pub join : Str → List Str → Str
join separator [] = []
join separator (s ∷ []) = s
join separator (s ∷ (t ∷ texts)) = s ++ (separator ++ join separator (t ∷ texts))

-- The decimal text of a number below 10^fuel.
abbrev pub decimal : ℕ → ℕ → Str
decimal zero n = []
decimal (suc fuel) n =
    let front = decimal fuel (n / 10) in
    let digit = (48 + n % 10) ∷ [] in if ltb n 10 then digit else front ++ digit

abbrev pub user_texts : List UserContent → List Str
user_texts [] = []
user_texts (UserContent.text t ∷ content) = t ∷ user_texts content
user_texts (UserContent.image media_type image_data ∷ content) = user_texts content

unfoldable pub extract_user_text : List UserContent → Str
extract_user_text content = join (lit " ") (user_texts content)

-- The `filter_map` that the runtime applies to a response.
abbrev pub block_texts : {N : Type 0} → List (ContentBlock N) → List Str
block_texts [] = []
block_texts (ContentBlock.text t ∷ content) = t ∷ block_texts content
block_texts (ContentBlock.tool_use id name input ∷ content) = block_texts content

module _ {F : Type 0} (format_date : ℕ → Str) (format_confidence : F → Str) where
  -- `Explicit | Confirmed`, and `Inferred`.
  abbrev pub is_verified : SourceType → Bool
  is_verified explicit = true
  is_verified confirmed = true
  is_verified inferred = false

  abbrev pub is_inferred : SourceType → Bool
  is_inferred explicit = false
  is_inferred confirmed = false
  is_inferred inferred = true

  abbrev pub verified_lines : List (Memory F) → Str
  verified_lines [] = []
  verified_lines (m ∷ memories) =
      lit "- "
      ++ m.content
      ++ lit " ["
      ++ source_str m.source_type
      ++ lit ", "
      ++ format_date m.created_at
      ++ lit "]"
      ++ newline
      ++ verified_lines memories

  abbrev pub inferred_lines : List (Memory F) → Str
  inferred_lines [] = []
  inferred_lines (m ∷ memories) =
      lit "- "
      ++ m.content
      ++ lit " [inferred, confidence: "
      ++ format_confidence m.confidence
      ++ lit "]"
      ++ newline
      ++ inferred_lines memories

  -- How a date and a confidence are written is given.
  unfoldable pub format_memory_injection : List (Memory F) → Str
  format_memory_injection memories =
      let verified = filter (λ m. is_verified m.source_type) memories in
      let unsure = filter (λ m. is_inferred m.source_type) memories in
      if is_empty memories
      then []
      else (newline ++ newline ++ lit "## Relevant memories" ++ newline)
        ++ (if is_empty verified
            then []
            else newline ++ lit "### Verified" ++ newline ++ verified_lines verified)
        ++ (if is_empty unsure
            then []
            else newline
              ++ lit "### Inferred (lower confidence)"
              ++ newline
              ++ inferred_lines unsure)

module _ {N : Type 0} (value_text : Value N → Str) where
  -- The text of a JSON value, as serde_json writes it, is given.
  abbrev pub user_line : List UserContent → Str
  user_line [] = newline
  user_line (UserContent.text t ∷ content) = t ++ user_line content
  user_line (UserContent.image media_type image_data ∷ content) = lit "[image]" ++ user_line content

  abbrev pub assistant_line : List (ContentBlock N) → Str
  assistant_line [] = newline
  assistant_line (ContentBlock.text t ∷ content) = t ++ assistant_line content
  assistant_line (ContentBlock.tool_use id name input ∷ content) =
      lit "[tool_use: " ++ name ++ lit "(" ++ value_text input ++ lit ")]" ++ assistant_line content

  abbrev pub message_line : Message N → Str
  message_line (user content) = lit "User: " ++ user_line content
  message_line (assistant content stop_reason) = lit "Assistant: " ++ assistant_line content
  message_line (tool_result id content true) = lit "Tool Error: " ++ content ++ newline
  message_line (tool_result id content false) = lit "Tool Result: " ++ content ++ newline

  unfoldable pub serialize_messages_for_prompt : List (Message N) → Str
  serialize_messages_for_prompt [] = []
  serialize_messages_for_prompt (msg ∷ messages) =
      message_line msg ++ serialize_messages_for_prompt messages
