-- ===== src/Providers/Wire/RoundTrip.antt =====
-- providers/wire.rs: reading the messages back from the wire.
use cherub.Base.{
  Bool, true, false, ◌≡◌, refl, ap, sym, ◌∙◌, List, [], ◌∷◌, ◌++◌, map, append_assoc, append-nil,
  if◌then◌else◌,
}
use mathlib.Core.List.{map-append}
use cherub.Base.Bytes.{Str, lit, str_eq}
use cherub.Providers.{Message, user, assistant, tool_result, UserContent, ContentBlock, end_turn}
use cherub.Providers.Wire.{
  WireContentBlock, WireContent, WireMessage, user_block, user_content_to_wire, assistant_block,
  flush_results, wire_from, messages_to_wire,
}

-- The wire has no stop reasons.
abbrev pub without_stop : {N : Type 0} → Message N → Message N
without_stop (user content) = user content
without_stop (assistant content stop_reason) = assistant content end_turn
without_stop (tool_result id content is_error) = tool_result id content is_error

module _ {N : Type 0} where
  -- Reading a block back, as a part of each of the three kinds of messages. A block that is not of
  -- the kind has no reading.
  abbrev pub read_user_block : WireContentBlock N → List UserContent
  read_user_block (WireContentBlock.text text) = UserContent.text text ∷ []
  read_user_block (WireContentBlock.image source_type media_type image_data) =
      UserContent.image media_type image_data ∷ []
  read_user_block (WireContentBlock.tool_use id name input) = []
  read_user_block (WireContentBlock.tool_result id content is_error) = []

  abbrev pub read_user_blocks : List (WireContentBlock N) → List UserContent
  read_user_blocks [] = []
  read_user_blocks (b ∷ bs) = read_user_block b ++ read_user_blocks bs

  abbrev pub read_assistant_blocks : List (WireContentBlock N) → List (ContentBlock N)
  read_assistant_blocks [] = []
  read_assistant_blocks (WireContentBlock.text text ∷ bs) =
      ContentBlock.text text ∷ read_assistant_blocks bs
  read_assistant_blocks (WireContentBlock.tool_use id name input ∷ bs) =
      ContentBlock.tool_use id name input ∷ read_assistant_blocks bs
  read_assistant_blocks (b ∷ bs) = read_assistant_blocks bs

  abbrev pub read_results : List (WireContentBlock N) → List (Message N)
  read_results [] = []
  read_results (WireContentBlock.tool_result id content is_error ∷ bs) =
      tool_result id content is_error ∷ read_results bs
  read_results (WireContentBlock.text text ∷ bs) = read_results bs
  read_results (b ∷ bs) = read_results bs

  abbrev pub has_result : List (WireContentBlock N) → Bool
  has_result (WireContentBlock.tool_result id content is_error ∷ bs) = true
  has_result [] = false
  has_result (WireContentBlock.text text ∷ bs) = false
  has_result (b ∷ bs) = false

  abbrev pub read_content : Bool → WireContent N → List (Message N)
  read_content is_user (WireContent.text text) = user (UserContent.text text ∷ []) ∷ []
  read_content true (WireContent.blocks bs) =
      if has_result bs then read_results bs else user (read_user_blocks bs) ∷ []
  read_content false (WireContent.blocks bs) = assistant (read_assistant_blocks bs) end_turn ∷ []

  abbrev pub read_message : WireMessage N → List (Message N)
  read_message m = read_content (str_eq m.role (lit "user")) m.content

  -- The messages that a wire stands for.
  abbrev pub read_wire : List (WireMessage N) → List (Message N)
  read_wire [] = []
  read_wire (m ∷ wire) = read_message m ++ read_wire wire

  read_wire-append :
      (xs ys : List (WireMessage N)) → read_wire (xs ++ ys) ≡ read_wire xs ++ read_wire ys
  read_wire-append [] ys = refl
  read_wire-append (x ∷ xs) ys =
      ap (λ t. read_message x ++ t) (read_wire-append xs ys)
      ∙ sym (append_assoc (read_message x) (read_wire xs) (read_wire ys))

module _ (N : Type 0) where
  read_user_blocks-map :
      (content : List UserContent) → read_user_blocks (map (user_block {N = N}) content) ≡ content
  read_user_blocks-map [] = refl
  read_user_blocks-map (UserContent.text t ∷ content) =
      ap (λ r. UserContent.text t ∷ r) (read_user_blocks-map content)
  read_user_blocks-map (UserContent.image media_type image_data ∷ content) =
      ap (λ r. UserContent.image media_type image_data ∷ r) (read_user_blocks-map content)

  read-user_content_to_wire :
      (content : List UserContent)
      → read_content true (user_content_to_wire {N = N} content) ≡ user content ∷ []
  unfolding user_content_to_wire
  read-user_content_to_wire [] = refl
  read-user_content_to_wire (UserContent.text text ∷ []) = refl
  read-user_content_to_wire (UserContent.text text ∷ (c ∷ cs)) =
      ap (λ t. user (UserContent.text text ∷ t) ∷ []) (read_user_blocks-map (c ∷ cs))
  read-user_content_to_wire (UserContent.image media_type image_data ∷ cs) =
      ap (λ t. user (UserContent.image media_type image_data ∷ t) ∷ []) (read_user_blocks-map cs)

module _ {N : Type 0} where
  read_assistant_blocks-map :
      (content : List (ContentBlock N))
      → read_assistant_blocks (map assistant_block content) ≡ content
  read_assistant_blocks-map [] = refl
  read_assistant_blocks-map (ContentBlock.text text ∷ content) =
      ap (λ t. ContentBlock.text text ∷ t) (read_assistant_blocks-map content)
  read_assistant_blocks-map (ContentBlock.tool_use id name input ∷ content) =
      ap (λ t. ContentBlock.tool_use id name input ∷ t) (read_assistant_blocks-map content)

  -- Pending results, as blocks and as messages.
  abbrev result_block : Str × Str × Bool → WireContentBlock N
  result_block (id, content, is_error) = WireContentBlock.tool_result id content is_error

  abbrev result_message : Str × Str × Bool → Message N
  result_message (id, content, is_error) = tool_result id content is_error

  read_results-map :
      (rs : List (Str × Str × Bool)) → read_results (map result_block rs) ≡ map result_message rs
  read_results-map [] = refl
  read_results-map (r ∷ rs) = ap (λ t. result_message r ∷ t) (read_results-map rs)

  read-flush_results :
      (wire : List (WireMessage N)) (rs : List (Str × Str × Bool))
      → read_wire (flush_results wire (map result_block rs))
        ≡ read_wire wire ++ map result_message rs
  unfolding flush_results
  read-flush_results wire [] = sym (append-nil (read_wire wire))
  read-flush_results wire (r ∷ rs) =
      read_wire-append wire _
      ∙ ap (λ t. read_wire wire ++ (result_message r ∷ t))
          (append-nil (read_results (map result_block rs)) ∙ read_results-map rs)

  -- What is read back after one more message is on the wire.
  read-flushed :
      (wire : List (WireMessage N)) (rs : List (Str × Str × Bool)) (m : WireMessage N)
      (message : Message N)
      → read_message m ≡ message ∷ []
      → read_wire (flush_results wire (map result_block rs) ++ m ∷ [])
        ≡ (read_wire wire ++ map result_message rs) ++ message ∷ []
  read-flushed wire rs m message e =
      read_wire-append (flush_results wire (map result_block rs)) (m ∷ [])
      ∙ ap (λ t. t ++ (read_message m ++ [])) (read-flush_results wire rs)
      ∙ ap (λ t. (read_wire wire ++ map result_message rs) ++ t) (append-nil (read_message m) ∙ e)

  read-wire_from :
      (wire : List (WireMessage N)) (rs : List (Str × Str × Bool)) (messages : List (Message N))
      → read_wire (wire_from wire (map result_block rs) messages)
        ≡ (read_wire wire ++ map result_message rs) ++ map without_stop messages
  unfolding wire_from
  read-wire_from wire rs [] = read-flush_results wire rs ∙ sym (append-nil _)
  read-wire_from wire rs (user content ∷ messages) =
      read-wire_from
        (flush_results wire (map result_block rs)
          ++ record { role = lit "user"; content = user_content_to_wire content } ∷ [])
        [] messages
      ∙ ap (λ t. t ++ map without_stop messages)
          (append-nil _
            ∙ read-flushed wire rs
                (record { role = lit "user"; content = user_content_to_wire content })
                (user content) (read-user_content_to_wire N content))
      ∙ append_assoc (read_wire wire ++ map result_message rs) (user content ∷ [])
          (map without_stop messages)
  read-wire_from wire rs (assistant content stop_reason ∷ messages) =
      let m : WireMessage N = record {
        role = lit "assistant";
        content = WireContent.blocks (map assistant_block content);
      } in
      read-wire_from (flush_results wire (map result_block rs) ++ m ∷ []) [] messages
      ∙ ap (λ t. t ++ map without_stop messages)
          (append-nil _
            ∙ read-flushed wire rs m (assistant content end_turn)
                (ap (λ t. assistant t end_turn ∷ []) (read_assistant_blocks-map content)))
      ∙ append_assoc (read_wire wire ++ map result_message rs) (assistant content end_turn ∷ [])
          (map without_stop messages)
  read-wire_from wire rs (tool_result id content is_error ∷ messages) =
      let r : Str × Str × Bool = (id, content, is_error) in
      ap (λ p. read_wire (wire_from wire p messages)) (sym (map-append result_block rs (r ∷ [])))
      ∙ read-wire_from wire (rs ++ r ∷ []) messages
      ∙ ap (λ t. (read_wire wire ++ t) ++ map without_stop messages)
          (map-append result_message rs (r ∷ []))
      ∙ simp append_assoc

  -- Whatever conversation is sent, it can be read back from the wire, message by message and in
  -- order: the merging of tool results and the short form of texts lose nothing but stop reasons.
  pub read-messages_to_wire :
      (messages : List (Message N))
      → read_wire (messages_to_wire messages) ≡ map without_stop messages
  unfolding messages_to_wire
  read-messages_to_wire messages = read-wire_from [] [] messages
