-- ===== src/Linux/Agent.antt =====
-- The helpers of the Linux agents (libnyx_agent/src/nyx_agent.c): the CPU type, hypercalls that
-- depend on it, resident pages, and the transfer of files. What they print to stdout and stderr
-- is left out.
pub mod Cpu
pub mod Pages
pub mod Transfer
pub mod Host
