-- ===== src/Tests.antt =====
-- Runs of the definitions on concrete inputs, and the theorems applied to them.
pub mod Toy
pub mod Decisions
pub mod Commands
pub mod Calls
pub mod Messages
pub mod Turns
pub mod Formats
pub mod Memories
pub mod Sandbox
pub mod Configs
