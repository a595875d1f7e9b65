-- ===== src/Enforcement.antt =====
-- The enforcement layer, src/enforcement: tiers, the compiled policy, the shell parser, the
-- extraction of actions, and the evaluation of a proposed tool invocation.
pub mod Tier
pub mod Policy
pub mod Decision
pub mod Shell
pub mod Extraction
pub mod Evaluate
