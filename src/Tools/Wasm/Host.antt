-- ===== src/Tools/Wasm/Host.antt =====
-- tools/wasm/host.rs: the host functions of a tool in the sandbox, with the state of one execution.
-- The clock and the file system are given.
pub mod Bounds
pub mod Logs
use cherub.Base.{
  ℕ, ◌+◌, ◌%◌, ◌^◌, Bool, true, false, Option, none, some, List, [], ◌∷◌, ◌++◌, not, if◌then◌else◌,
  ltb, leb, length, take, get_elem?,
}
use cherub.Base.Bytes.{Str, lit}
use cherub.Base.Result.{Result, ok, err}
use cherub.Tools.Path.{PathBuf, components, join, starts_with, is_safe_relative_path}
use cherub.Tools.Wasm.Capabilities.{
  Capabilities, WorkspaceCapability, HttpCapability, SecretsCapability, path_allowed, host_allowed,
  is_allowed,
}

abbrev pub max_log_entries : ℕ
max_log_entries = 1000

abbrev pub max_log_message_bytes : ℕ
max_log_message_bytes = 4096

pub data LogLevel : Type 0 where
  trace debug info warn error : LogLevel

pub record LogEntry : Type 0 where
  pub level : LogLevel
  pub message : Str
  pub timestamp_millis : ℕ

pub record HostState : Type 0 where
  pub logs : List LogEntry
  pub logging_enabled : Bool
  pub logs_dropped : ℕ
  pub capabilities : Capabilities
  pub http_request_count : ℕ
  pub workspace_root : Option PathBuf
  pub user_id : Option Str

-- `HostState::new`.
unfoldable pub new : Capabilities → HostState
new capabilities = record {
  logs = [];
  logging_enabled = true;
  logs_dropped = 0;
  capabilities = capabilities;
  http_request_count = 0;
  workspace_root = none;
  user_id = none;
}

unfoldable pub with_workspace_root : PathBuf → HostState → HostState
with_workspace_root root s = record s { workspace_root = some root }

unfoldable pub with_user_id : Str → HostState → HostState
with_user_id user_id s = record s { user_id = some user_id }

-- `s.is_char_boundary(n)` for a place inside of the text.
abbrev pub begins_char : Option ℕ → Bool
begins_char none = true
begins_char (some b) = if leb 128 b then not (ltb b 192) else true

-- The message that is kept; `truncate` panics, here none, where no character begins.
unfoldable pub kept_message : Str → Option Str
kept_message message =
    if ltb max_log_message_bytes (length message)
    then (if begins_char (get_elem? message max_log_message_bytes)
        then some (take max_log_message_bytes message ++ lit " [truncated]")
        else none)
    else some message

-- A message that is kept is pushed, and the cap may be hit.
unfoldable pub push_log : LogLevel → ℕ → Option Str → HostState → Option HostState
push_log level now none s = none
push_log level now (some message) s =
    let logs = s.logs ++ record { level = level; message = message; timestamp_millis = now } ∷ [] in
    some (record s {
      logs = logs;
      logging_enabled = (if leb max_log_entries (length logs) then false else s.logging_enabled);
    })

-- `log`, at a time; none is a panic.
unfoldable pub log : LogLevel → Str → ℕ → HostState → Option HostState
unfolding kept_message push_log
log level message now s =
    if s.logging_enabled
    then push_log level now (kept_message message) s
    else some (record s { logs_dropped = s.logs_dropped + 1 })

-- `workspace_read`, with the reading of files; a path that does not lie lexically in the root, or a
-- missing capability, is none.
unfoldable pub read_within :
    (PathBuf → Option Str) → Option WorkspaceCapability → Option PathBuf → Str → Option Str
read_within read none root path = none
read_within read (some cap) none path = none
read_within read (some cap) (some root) path =
    if is_safe_relative_path path
    then (if path_allowed cap path
        then (if starts_with (components (join root path)) (components root)
            then read (join root path)
            else none)
        else none)
    else none

unfoldable pub workspace_read : (PathBuf → Option Str) → Str → HostState → Option Str
unfolding read_within
workspace_read read path s = read_within read s.capabilities.workspace s.workspace_root path

-- `check_http_request`; the texts of the errors are told apart, not written out.
pub data Refusal : Type 0 where
  not_granted not_allowed rate_limited : Refusal

unfoldable pub check_with :
    Option HttpCapability → Str → HostState → Result Refusal Unit × HostState
check_with none host s = (err not_granted, s)
check_with (some cap) host s =
    if host_allowed cap host
    then (if leb cap.max_requests s.http_request_count
        then (err rate_limited, s)
        else (ok tt, record s { http_request_count = (s.http_request_count + 1) % 2 ^ 32 }))
    else (err not_allowed, s)

unfoldable pub check_http_request : Str → HostState → Result Refusal Unit × HostState
unfolding check_with
check_http_request host s = check_with s.capabilities.http host s

abbrev secret_with : Option SecretsCapability → Str → Bool
secret_with none name = false
secret_with (some cap) name = is_allowed cap name

unfoldable pub secret_exists : Str → HostState → Bool
secret_exists name s = secret_with s.capabilities.secrets name
