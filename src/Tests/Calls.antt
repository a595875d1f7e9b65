-- ===== src/Tests/Calls.antt =====
-- Tool calls, credentials and redaction.
use cherub.Base.{ℕ, ◌+◌, ◌≡◌, refl, true, false, none, some, List, [], ◌∷◌, ◌++◌, map}
use cherub.Base.Bytes.{Str, lit, str_eq}
use cherub.Base.Result.{ok}
use cherub.Json.{string, object, Map, entry, end}
use cherub.Enforcement.Tier.{commit}
use cherub.Enforcement.Policy.{mcp_structured}
use cherub.Enforcement.Decision.{Decision}
use cherub.Enforcement.Extraction.{extract}
use cherub.Providers.{Message}
use cherub.Runtime.Session.{Session}
use cherub.Runtime.Output.{ToolContext, ToolUse, Env}
use cherub.Runtime.AgentLoop.{Loop, process_decision, process_tool_uses}
use cherub.Runtime.AgentLoop.Pairing.{answers, ids, process_tool_uses-pairing}
use cherub.Runtime.AgentLoop.Effects.{Guarded, HasDone}
use cherub.Runtime.AgentLoop.Gating.{IsAuthorized, process_tool_uses-gated}
use cherub.Runtime.AgentLoop.Opacity.{process_decision-opaque}
use cherub.Tools.Registry.{ToolImpl, bash, mcp, find_tool, enforcement_name, enrich_params}
use cherub.Tools.Registry.Enrichment.{extract-enrich_params}
use cherub.Tools.LeakDetector.{Secret, redact, contains_secret}
use cherub.Tools.LeakDetector.Redaction.{redact-no_secret}
use cherub.Tools.CredentialBroker.{
  Credential, header, Store, InjectionResult, host_matches, inject, inject_decrypted,
}
use cherub.Tools.CredentialBroker.Injection.{IsInScope, inject-IsInScope}
use cherub.Tests.Toy.{toy_crates, toy_policy, command_params}

-- The human agrees to calls of bash only; the world counts the executions.
abbrev pub toy_env : Env ℕ
toy_env = record {
  World = ℕ;
  run_tool = λ tool params token ctx world. (ok (lit "done"), world + 1);
  request_approval = λ name display input world. (str_eq name (lit "bash"), world);
  error_text = λ e. lit "failed";
  has_audit_store = true;
}

abbrev pub toy_registry : List ToolImpl
toy_registry = bash ∷ mcp (lit "fs_read") (lit "fs") (lit "read") ∷ []

abbrev toy_ctx : ToolContext
toy_ctx = record { user_id = lit "u"; session_id = 7; turn_number = 2 }

abbrev toy_session : Session ℕ
toy_session = record {
  id = 7;
  user_id = lit "u";
  messages = [];
  next_ordinal = 0;
  compaction_count = 0;
  has_store = true;
}

abbrev pub start : Loop toy_env
start = record { world = 0; session = toy_session; effects = [] }

abbrev ls_call : ToolUse ℕ
ls_call = record { id = lit "1"; name = lit "bash"; input = command_params (lit "ls") }

abbrev read_call : ToolUse ℕ
read_call = record { id = lit "2"; name = lit "fs_read"; input = object end }

abbrev toy_calls : List (ToolUse ℕ)
toy_calls = ls_call ∷ read_call ∷ []

process_tool_uses-pairing_example :
    (results : List (Message ℕ)) × ((process_tool_uses toy_crates toy_env toy_registry toy_policy
        none toy_ctx toy_calls start).session.messages
      ≡ [] ++ results)
    × (map answers results ≡ ids toy_calls)
process_tool_uses-pairing_example =
    process_tool_uses-pairing toy_crates toy_env toy_registry toy_policy none toy_ctx toy_calls
      start

process_tool_uses-gated_example :
    HasDone toy_env
      (Guarded (IsAuthorized toy_crates toy_env toy_registry toy_policy none toy_calls))
      start
      (process_tool_uses toy_crates toy_env toy_registry toy_policy none toy_ctx toy_calls start)
process_tool_uses-gated_example =
    process_tool_uses-gated toy_crates toy_env toy_registry toy_policy none toy_ctx toy_calls start

process_decision-opaque_example :
    (process_decision toy_env toy_registry toy_ctx read_call
      (lit "read")
      (object end)
      (Decision.escalate commit)
      start).session
    ≡ (process_decision toy_env toy_registry toy_ctx read_call
        (lit "read")
        (object end)
        Decision.reject
        start).session
process_decision-opaque_example =
    process_decision-opaque toy_env toy_registry toy_ctx read_call (lit "read") (object end) commit
      start refl

-- An agent that names another tool in the input.
abbrev forged : Map ℕ
forged = entry (lit "__mcp_tool") (string (lit "other")) end

mcp_found :
    find_tool toy_registry (lit "fs_read") ≡ some (mcp (lit "fs_read") (lit "fs") (lit "read"))
unfolding find_tool
mcp_found = refl

extract-enrich_params_example :
    (enforcement_name toy_registry (lit "fs_read") ≡ lit "fs")
    × (extract mcp_structured (enrich_params toy_registry (lit "fs_read") (object forged))
        ≡ some (lit "fs:read" ∷ []))
extract-enrich_params_example =
    extract-enrich_params toy_registry (lit "fs_read") (lit "fs_read") (lit "fs") (lit "read")
      forged mcp_found (λ e. cc) (λ e. cc)

abbrev two_secrets : List Secret
two_secrets =
    record { name = lit "a"; value = lit "k-1" } ∷ record { name = lit "b"; value = lit "k-2" } ∷ []

redact_runs : redact two_secrets (lit "x k-1k-2") ≡ lit "x [REDACTED:a][REDACTED:b]"
unfolding redact
redact_runs = refl

redact-no_secret_example : contains_secret two_secrets (redact two_secrets (lit "x k-1k-2")) ≡ false
redact-no_secret_example =
    redact-no_secret two_secrets (lit "x k-1k-2")
      ((λ e. cc, refl, (refl, (refl, tt))), ((λ e. cc, refl, (refl, (refl, tt))), tt))

covers : host_matches (lit "api.stripe.com") (lit "*.stripe.com") ≡ true
unfolding host_matches
covers = refl

-- Neither the domain itself nor a host that ends in its letters.
not_covers : host_matches (lit "stripe.com") (lit "*.stripe.com") ≡ false
unfolding host_matches
not_covers = refl

not_covers_suffix : host_matches (lit "mystripe.com") (lit "*.stripe.com") ≡ false
unfolding host_matches
not_covers_suffix = refl

abbrev stripe : Credential
stripe = record {
  expires_at = some 100;
  host_patterns = lit "*.stripe.com" ∷ [];
  capabilities = lit "read" ∷ [];
  location = header (lit "X-Key") none;
}

-- URLs are their hosts.
abbrev toy_store : Store
toy_store = record {
  get = λ user_id name. ok stripe;
  decrypt = λ cred. ok (lit "stripe", lit "k-1");
  now = 50;
  Url = Str;
  host_str = λ url. some url;
  append_pair = λ name value url. url;
}

abbrev injected : InjectionResult toy_store
injected = inject_decrypted toy_store stripe (lit "api.stripe.com") (lit "stripe", lit "k-1")

injects : inject toy_store (lit "u") (lit "stripe") (lit "GET") (lit "api.stripe.com") ≡ ok injected
unfolding inject host_matches cherub.Tools.CredentialBroker.method_to_capability
injects = refl

inject-IsInScope_example :
    IsInScope toy_store (lit "u") (lit "stripe") (lit "GET") (lit "api.stripe.com") injected
inject-IsInScope_example =
    inject-IsInScope toy_store (lit "u") (lit "stripe") (lit "GET") (lit "api.stripe.com") injected
      injects
