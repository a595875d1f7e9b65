-- ===== src/Tests/Formats.antt =====
-- Wire formats, frames, paths and edits.
use cherub.Base.{
  ℕ, zero, suc, ◌≡◌, refl, true, false, none, some, List, [], ◌∷◌, ◌++◌, map, any, All, not, arith,
  if◌then◌else◌,
}
use cherub.Base.Bytes.{Str, lit, str_eq}
use cherub.Base.Result.{ok, err, ◌>>=◌}
use cherub.Json.{Value, null, number}
use cherub.Providers.{
  tool_execution, Message, user, assistant, tool_result, UserContent, ContentBlock, StopReason,
}
use cherub.Providers.Wire.{WireContentBlock, WireContent, messages_to_wire}
use cherub.Providers.Wire.RoundTrip.{read_wire, without_stop, read-messages_to_wire}
use cherub.Providers.OpenaiWire.{
  OaiResponseToolCall, ChatCompletionResponse, message_to_oai, openai_response_to_message,
}
use cherub.Providers.OpenaiWire.Replay.{echo, first_finish, openai_response_to_message-echo}
use cherub.Tools.Container.Ipc.{write_frame}
use cherub.Tools.Container.Ipc.Framing.{
  IsSendable, write_frames, read_frames, read_frames-write_frames,
}
use cherub.Tools.Path.{
  PathBuf, components, is_climbing, parent, FileSystem, join, resolve_workspace_path,
  is_safe_relative_path,
}
use cherub.Tools.Path.Containment.{IsWithin, IsCanonical, resolve_workspace_path-IsWithin}
use cherub.Tools.File.{normalized, replace, crlf, lf, edit_text, restored}
use cherub.Tools.File.Edits.{IsEditOf, edit_text-IsEdit}

-- Two results are merged into one message of the user.
abbrev talk : List (Message ℕ)
talk =
    user (UserContent.text (lit "hi") ∷ [])
    ∷ assistant
        (ContentBlock.tool_use (lit "1") (lit "bash") null
          ∷ ContentBlock.tool_use (lit "2") (lit "bash") null
          ∷ [])
        StopReason.tool_use
    ∷ tool_result (lit "1") (lit "a") false
    ∷ tool_result (lit "2") (lit "b") true
    ∷ []

talk_on_wire :
    messages_to_wire talk
    ≡ record { role = lit "user"; content = WireContent.text (lit "hi") }
      ∷ record {
        role = lit "assistant";
        content = WireContent.blocks (
            WireContentBlock.tool_use (lit "1") (lit "bash") null
            ∷ WireContentBlock.tool_use (lit "2") (lit "bash") null
            ∷ []);
      }
      ∷ record {
        role = lit "user";
        content = WireContent.blocks (
            WireContentBlock.tool_result (lit "1") (lit "a") false
            ∷ WireContentBlock.tool_result (lit "2") (lit "b") true
            ∷ []);
      }
      ∷ []
unfolding messages_to_wire
talk_on_wire = refl

read-messages_to_wire_example : read_wire (messages_to_wire talk) ≡ map without_stop talk
read-messages_to_wire_example = read-messages_to_wire talk

-- JSON with one number.
abbrev toy_to_string : Value ℕ → Str
toy_to_string (number zero) = lit "0"
toy_to_string (number (suc n)) = lit "1"
toy_to_string null = lit "null"
toy_to_string _ = lit "null"

abbrev toy_from_str : Str → Value ℕ
toy_from_str s = if str_eq s (lit "0") then number 0 else null

abbrev oai_call : OaiResponseToolCall
oai_call = record { id = lit "c1"; name = lit "bash"; arguments = lit "0" }

abbrev oai_response : ChatCompletionResponse
oai_response = record {
  choices =
      record {
        message = record { content = some (lit "see"); tool_calls = some (oai_call ∷ []) };
        finish_reason = some (lit "tool_calls");
      }
      ∷ [];
  usage = none;
}

openai_response_to_message-echo_example :
    openai_response_to_message toy_from_str (record {
      choices =
          record {
            message = echo (
                message_to_oai toy_to_string
                  (openai_response_to_message toy_from_str oai_response).0);
            finish_reason = first_finish oai_response.choices;
          }
          ∷ [];
      usage = none;
    })
    ≡ openai_response_to_message toy_from_str oai_response
openai_response_to_message-echo_example =
    openai_response_to_message-echo toy_to_string toy_from_str oai_response (refl, tt)

abbrev two_payloads : List Str
two_payloads = lit "{}" ∷ [] ∷ []

two_payloads-IsSendable : All IsSendable two_payloads
two_payloads-IsSendable = (omega arith, (omega arith, tt))

frame_bytes : write_frame [] (lit "ab") ≡ ok (0 ∷ 0 ∷ 0 ∷ 2 ∷ 97 ∷ 98 ∷ [])
unfolding write_frame
frame_bytes = refl

read_frames-write_frames_example :
    (write_frames two_payloads [] >>= read_frames 2) ≡ ok (two_payloads, [])
read_frames-write_frames_example = read_frames-write_frames two_payloads two_payloads-IsSendable

-- Everything exists and is its own canonical form.
abbrev plain_files : FileSystem
plain_files = record { exists = λ path. true; canonicalize = λ path. ok path }

abbrev work : PathBuf
work = lit "/work"

abbrev main_file : PathBuf
main_file = lit "/work/src/./main.rs"

main_resolved : resolve_workspace_path plain_files work (lit "src/./main.rs") ≡ ok main_file
unfolding resolve_workspace_path
main_resolved = refl

parents :
    (parent (lit "/work//a/./") ≡ some (lit "/work"))
    × (parent (lit "/a") ≡ some (lit "/"))
    × (parent (lit "./a") ≡ some (lit "."))
    × (parent (lit "a") ≡ some [])
    × (parent (lit "/") ≡ none)
unfolding parent
parents = (refl, refl, refl, refl, refl)

-- A link to a file elsewhere; with a slash after its name it does not exist.
abbrev linked_files : FileSystem
linked_files = record {
  exists = λ path. not (str_eq path (lit "/work/link/"));
  canonicalize = λ path. if str_eq path (lit "/work/link") then ok (lit "/etc/passwd") else ok path;
}

-- The link is refused, but not with the slash.
link_resolved :
    (resolve_workspace_path linked_files work (lit "link")
      ≡ err (tool_execution (lit "path escapes workspace root")))
    × (resolve_workspace_path linked_files work (lit "link/") ≡ ok (lit "/work/link"))
unfolding resolve_workspace_path
link_resolved = (refl, refl)

climbing_refused : is_safe_relative_path (lit "src/../../etc") ≡ false
unfolding is_safe_relative_path
climbing_refused = refl

resolve_workspace_path-IsWithin_example :
    (any is_climbing (components (lit "src/./main.rs")) ≡ false)
    × (canonical_root : PathBuf) × (plain_files.canonicalize work ≡ ok canonical_root)
    × IsWithin (components canonical_root) (components main_file)
    × IsCanonical plain_files (join work (lit "src/./main.rs")) main_file
resolve_workspace_path-IsWithin_example =
    resolve_workspace_path-IsWithin plain_files work (lit "src/./main.rs") main_file main_resolved

-- A file with CRLF at one line end and LF at the other has CRLF at both after an edit.
abbrev mixed : Str
mixed = lit "a" ++ crlf ++ lit "b" ++ lf

mixed_edited :
    edit_text (lit "a") (lit "c") false mixed ≡ ok (lit "c" ++ crlf ++ lit "b" ++ crlf, 1)
unfolding edit_text cherub.Tools.File.count replace cherub.Tools.File.restore
    cherub.Tools.File.replace_first
mixed_edited = refl

edit_text-IsEdit_example :
    (mark : Str) × (body : Str) × IsEditOf (lit "a") (lit "c") mixed mark body
edit_text-IsEdit_example = edit_text-IsEdit (lit "a") (lit "c") mixed
