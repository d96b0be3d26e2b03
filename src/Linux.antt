-- ===== src/Linux.antt =====
-- The Linux agents.
pub mod Agent
pub mod Vmcall
pub mod Forkserver
pub mod FsFuzzer
