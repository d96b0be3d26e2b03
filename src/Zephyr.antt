-- ===== src/Zephyr.antt =====
-- The Zephyr targets (zephyr_x86_32).
pub mod Agent
pub mod Target
pub mod Directory
pub mod Json
pub mod Linked
