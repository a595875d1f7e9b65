-- ===== src/Tools/Container.antt =====
-- tools/container: the tools that run in a container.
pub mod Ipc
