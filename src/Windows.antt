-- ===== src/Windows.antt =====
-- The Windows targets (windows_x86_64).
pub mod Driver
pub mod Drivers
pub mod Agent
pub mod SelfFuzz
pub mod Exceptions
pub mod Regions
pub mod Session
pub mod Image
pub mod Font
pub mod Standalone
