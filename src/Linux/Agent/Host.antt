-- ===== src/Linux/Agent/Host.antt =====
-- `check_host_magic`
pub mod Laws
use kafl_targets.Base.{ℕ, ◌==◌, if◌then◌else◌, not}
use kafl_targets.Base.Int.{ℤ, pos, negsuc}
use kafl_targets.Nyx
use kafl_targets.Nyx.{HostConfig, nyx_host_magic, nyx_host_version}
use kafl_targets.Machine.{M, pure, ◌>>=◌, ◌>>◌, host_config, host_config_ptr}
use kafl_targets.Linux.Agent.Cpu.{
  CpuType, nyx_cpu_v1, nyx_cpu_v2, nyx_cpu_none, nyx_cpu_invalid, hypercall,
}

-- `host_config_t host_config = { 0 }`
abbrev zero_host_config : HostConfig
zero_host_config = record {
  host_magic = 0;
  host_version = 0;
  bitmap_size = 0;
  ijon_bitmap_size = 0;
  payload_buffer_size = 0;
  worker_id = 0;
}

-- The structure after the hypercall: one that is skipped leaves it zeroed.
abbrev received_config : CpuType → M HostConfig
received_config nyx_cpu_v1 = host_config
received_config nyx_cpu_v2 = pure zero_host_config
received_config nyx_cpu_none = pure zero_host_config
received_config nyx_cpu_invalid = pure zero_host_config

unfoldable pub check_host_magic : ℕ → CpuType → M ℤ
unfolding hypercall
check_host_magic depth cpu = do
  hypercall depth cpu Nyx.get_host_config host_config_ptr
  c ← received_config cpu
  pure (
      if not (c.host_magic == nyx_host_magic)
      then negsuc 0
      else if not (c.host_version == nyx_host_version)
      then negsuc 0
      else pos 0)
