-- ===== src/Tests.antt =====
-- Runs of the model at concrete inputs: one use of each theorem that has conditions.
mod Samples
mod Disk
mod Handshakes
mod Agents
mod Linux
mod Vmcall
mod Targets
mod Uefi
mod Windows
mod Drivers
mod Standalone
mod MacOs
