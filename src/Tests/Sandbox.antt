-- ===== src/Tests/Sandbox.antt =====
-- The host functions of the sandbox.
use cherub.Base.{◌≡◌, refl, true, false, none, some, List, [], ◌∷◌, arith}
use cherub.Base.Bytes.{Str, lit}
use cherub.Tools.Wasm.Capabilities.{
  Capabilities, HttpCapability, path_allowed, host_allowed, is_allowed,
}
use cherub.Tools.Wasm.Host.{
  LogLevel, LogEntry, HostState, new, check_http_request, workspace_read, secret_exists,
  with_workspace_root,
}
use cherub.Tools.Wasm.Host.Bounds.{IsWithinCapability, request_all, request_all-IsWithinCapability}
use cherub.Tools.Wasm.Host.Logs.{IsLogOf, log_all, log_all-IsLogOf}

abbrev web : HttpCapability
web = record { allowed_hosts = lit "a.b" ∷ lit "*.c.d" ∷ []; credentials = []; max_requests = 2 }

abbrev granted : Capabilities
granted = record {
  workspace = some (record { allowed_prefixes = lit "data/" ∷ [] });
  http = some web;
  secrets = some (record { allowed_names = lit "openai_*" ∷ [] });
}

-- The third permitted request is over the limit.
abbrev asked : List Str
asked = lit "c.d" ∷ lit "x.c.d" ∷ lit "a.b" ∷ lit "a.b" ∷ []

asked_twice : request_all asked (new granted) ≡ lit "x.c.d" ∷ lit "a.b" ∷ []
unfolding check_http_request new host_allowed
asked_twice = refl

request_all-IsWithinCapability_example :
    IsWithinCapability (some web) 0 (request_all asked (new granted))
request_all-IsWithinCapability_example = request_all-IsWithinCapability granted asked (ground arith)

-- A file is read only below a prefix of the capability, and never above the root.
abbrev rooted : HostState
rooted = with_workspace_root (lit "/w") (new granted)

reads_below :
    (workspace_read (λ path. some (lit "text")) (lit "data/x") rooted ≡ some (lit "text"))
    × (workspace_read (λ path. some (lit "text")) (lit "other/x") rooted ≡ none)
    × (workspace_read (λ path. some (lit "text")) (lit "data/../x") rooted ≡ none)
unfolding workspace_read new with_workspace_root cherub.Tools.Path.is_safe_relative_path
    path_allowed cherub.Tools.Path.join
reads_below = (refl, refl, refl)

names_allowed :
    (secret_exists (lit "openai_key") (new granted) ≡ true)
    × (secret_exists (lit "key") (new granted) ≡ false)
unfolding secret_exists new is_allowed
names_allowed = (refl, refl)

abbrev two_calls : List LogEntry
two_calls =
    record { level = LogLevel.info; message = lit "one"; timestamp_millis = 1 }
    ∷ record { level = LogLevel.warn; message = lit "two"; timestamp_millis = 2 }
    ∷ []

log_all-IsLogOf_example :
    (s : HostState) × (log_all two_calls (new granted) ≡ some s) × IsLogOf two_calls s
log_all-IsLogOf_example = log_all-IsLogOf granted two_calls (refl, (refl, tt))
