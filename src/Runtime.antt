-- ===== src/Runtime.antt =====
-- src/runtime: the session, the estimate of tokens, and the agent loop.
pub mod Session
pub mod Output
pub mod AgentLoop
pub mod Tokens
pub mod Prompt
pub mod Turn
