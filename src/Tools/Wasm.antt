-- ===== src/Tools/Wasm.antt =====
-- tools/wasm: what a tool in the sandbox may do.
pub mod Capabilities
pub mod Host
