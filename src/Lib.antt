-- ===== src/Lib.antt =====
-- Cherub, a runtime for agents that enforces a policy on every tool call of a model.
--
-- The parts and how they interact. A model asks for tool calls. The agent loop
-- (src/runtime/mod.rs) proposes each call to the enforcement (src/enforcement), which extracts the
-- actions from its parameters, matches each against the compiled policy, and combines the
-- decisions: allow with a capability token, reject, or escalate to a human. Only with a token is a
-- tool of the registry (src/tools/mod.rs) executed. Results go back to the model as messages of
-- the session (src/runtime/session.rs), which is compacted when the estimate of its tokens
-- (src/runtime/tokens.rs) grows too large. The model is called through a chain of providers with
-- circuit breakers (src/providers/failover.rs) and retries (src/retry.rs). HTTP tools get
-- credentials from a broker (src/tools/credential_broker.rs), and their output passes a leak
-- detector (src/tools/leak_detector.rs).
--
-- The files. Base has the shared names: native numbers, Boolean tests, lists, options, results,
-- and texts as UTF-8 bytes (Base/Bytes). Crates is the interface to third-party code: numbers of
-- JSON, floats, regular expressions. Json is serde_json's value.
--   Enforcement/Tier        src/enforcement/tier.rs, capability.rs
--   Enforcement/Policy      src/enforcement/policy.rs: configuration, compiled policy, constraints;
--                           Compile the compilation, Order the order of the actions
--   Enforcement/Shell       src/enforcement/shell.rs; Slices, Fuel and Plain are about its results
--   Enforcement/Extraction  src/enforcement/extraction.rs, with Shape
--   Enforcement/Decision    src/enforcement/mod.rs: combine_decisions, with Laws
--   Enforcement/Evaluate    src/enforcement/mod.rs: evaluate, with Soundness, Budget and Limits
--   Providers               src/providers/mod.rs and src/error.rs: messages and errors
--   Providers/Failover      src/providers/failover.rs, with Order and Breaker
--   Providers/Wire          src/providers/wire.rs, with RoundTrip
--   Providers/OpenaiWire    src/providers/openai_wire.rs, with Replay
--   Providers/Config        src/providers/config.rs, with Fuel; Instances has the providers that are
--                           built, and Resolution is about them
--   Runtime/Session         src/runtime/session.rs, with Ordinals and Compaction
--   Runtime/Tokens          src/runtime/tokens.rs, with Additive
--   Runtime/Prompt          src/runtime/prompt.rs: conversations and memories as text
--   Runtime/Output          src/runtime/output.rs and what else the loop tells and asks outside
--   Runtime/AgentLoop       src/runtime/mod.rs: the tool calls of a response; Pairing, Effects,
--                           Gating and Opacity
--   Runtime/Turn            src/runtime/mod.rs: run_turn; State, Flush and Compact have its parts,
--                           Sanction and Conversation describe what a turn may do, Quiet,
--                           Compaction, Rounds and Steps are about the parts, Refinement and Ends
--                           about run_turn
--   Storage                 src/storage/mod.rs: the types of memories and usage rows
--   Tools/Registry          src/tools/mod.rs, with Enrichment
--   Tools/LeakDetector      src/tools/leak_detector.rs, with Redaction
--   Tools/CredentialBroker  src/tools/credential_broker.rs, with Scope and Injection
--   Tools/Path              src/tools/path.rs, with Containment
--   Tools/File              src/tools/file.rs: op_edit, with Lines and Edits
--   Tools/Memory            src/tools/memory.rs, with Provenance
--   Tools/Container/Ipc     src/tools/container/ipc.rs, with Framing
--   Tools/Wasm              src/tools/wasm/capabilities.rs, with Hosts, and host.rs, with Bounds and
--                           Logs
--   Retry                   src/retry.rs, with Bounds
--   Telegram                src/telegram/output.rs: split_message, with Chunks
--   Tests                   runs on concrete inputs, and applications of the theorems
--
-- How the code corresponds. A struct is a record, an enum a data type, a method a function of the
-- same name that takes the old state and returns the new one. A `?` is a bind of Option or of
-- Result. A loop is structural recursion with the loop's variables as arguments. What the agent
-- loop does to the world outside is a list of effects in their order; the tools and the approval
-- gate are functions on a world that is a parameter, and so are the provider, the stores and the
-- clock. A file is its bytes, which are UTF-8, and a path its bytes, which std::path reads as
-- components. A panic is a result of its own.
--
-- Bounds and fuel. u32 and i32 arithmetic is modulo 2^32. collect_commands recurses into
-- substitutions on fuel, the length of the text and one more: each substitution is shorter than
-- the text that it stands in. split_message is on the same fuel: each chunk is not empty.
-- detect_cycle and instantiate_named_provider are on one step more than there are providers: no
-- name comes twice in an ancestry. All other recursion is structural.
--
-- Not modelled. Third-party crates (regular expressions, TOML, floats, URLs, HTTP, databases) are
-- parameters or left out; so are logging, durations of executions, and the texts of validation
-- errors. The providers' HTTP requests, the other tools, the databases, the containers and
-- wasmtime, the Telegram bot and the binaries are not modelled. All cargo features are on.
pub mod Base
pub mod Crates
pub mod Json
pub mod Enforcement
pub mod Providers
pub mod Runtime
pub mod Storage
pub mod Tools
pub mod Telegram
pub mod Tests
pub mod Retry
