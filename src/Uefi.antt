-- ===== src/Uefi.antt =====
-- The UEFI targets (uefi_ovmf_64): the agent library, the DXE harness and its application,
-- and their targets.
pub mod Header
pub mod Agent
pub mod Dxe
pub mod Target
pub mod Pool
pub mod Decompress
pub mod Bmp
pub mod App
