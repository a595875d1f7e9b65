-- ===== src/Enforcement/Extraction.antt =====
-- enforcement/extraction.rs: the action strings of a tool invocation's parameters.
pub mod Shape
use cherub.Base.{
  ℕ, Bool, true, false, not, ◌≡◌, refl, Option, none, some, List, [], ◌∷◌, ◌++◌, if◌then◌else◌,
  is_empty, ◌>>=◌,
}
use cherub.Base.Bytes.{Str, lit, split_once_after, before}
use cherub.Json.{Value, get, get_str, as_str}
use cherub.Enforcement.Policy.{MatchSource, command, structured, http_structured, mcp_structured}
use cherub.Enforcement.Shell.{parse_commands}

-- `option.filter(|s| !s.is_empty())`.
abbrev pub filter_empty : Option Str → Option Str
filter_empty none = none
filter_empty (some s) = if is_empty s then none else some s

-- `extract_url_host`.
unfoldable pub extract_url_host : Str → Option Str
extract_url_host url = do
  after_scheme ← split_once_after (lit "://") url
  let host = before b':' (before b'/' after_scheme)
  if is_empty host then none else some host

-- `"{action}:{path}"` where there is a path, else the action.
unfoldable pub qualify : Str → Option Str → Str
qualify action none = action
qualify action (some path) = if is_empty path then action else action ++ (b':' ∷ path)

module _ {N : Type 0} where
  -- `params.get(key).and_then(|v| v.as_str()).filter(|s| !s.is_empty())`.
  unfoldable pub field : Value N → Str → Option Str
  field params key = filter_empty (get_str params key)

  -- `MatchSource::extract`.
  unfoldable pub extract : MatchSource → Value N → Option (List Str)
  extract command params = do
    text ← field params (lit "command")
    sub_commands ← parse_commands text
    if is_empty sub_commands then none else some sub_commands
  extract structured params = do
    action ← field params (lit "action")
    some (qualify action (get_str params (lit "path")) ∷ [])
  extract http_structured params = do
    action ← field params (lit "action")
    url ← field params (lit "url")
    host ← extract_url_host url
    some ((action ++ (b':' ∷ host)) ∷ [])
  extract mcp_structured params = do
    server ← field params (lit "__mcp_server")
    tool ← field params (lit "__mcp_tool")
    some ((server ++ (b':' ∷ tool)) ∷ [])
