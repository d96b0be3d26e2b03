-- ===== src/MacOs.antt =====
-- The macOS targets (macOS_x86_64).
pub mod Driver
pub mod Loader
pub mod Fuzzer
pub mod Kexts
pub mod Info
