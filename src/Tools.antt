-- ===== src/Tools.antt =====
-- src/tools: the registry of tools, and the leak detector of the HTTP tools.
pub mod Container
pub mod Path
pub mod File
pub mod Memory
pub mod Wasm
pub mod Registry
pub mod LeakDetector
pub mod CredentialBroker
