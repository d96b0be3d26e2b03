-- ===== src/Handshake.antt =====
-- The handshake of each agent with the host: which host configuration it accepts, and the agent
-- configuration that it submits.
use kafl_targets.Base.{
  ℕ, ◌≤◌, ◌≡◌, Bool, ◌||◌, ◌&&◌, not, leb, ◌==◌, Option, none, some, List, [], ◌∷◌, if◌then◌else◌,
}
use kafl_targets.Nyx
use kafl_targets.Nyx.{
  HostConfig, AgentConfig, nyx_host_magic, nyx_host_version, nyx_agent_magic, nyx_agent_version,
}
use kafl_targets.Machine.{Env, History, vmcall, agent_config_ptr, last_config, abort_final, live}

-- `agent_config_t agent_config = { 0 }`
abbrev pub zero_config : AgentConfig
zero_config = record {
  agent_magic = 0;
  agent_version = 0;
  agent_timeout_detection = 0;
  agent_tracing = 0;
  agent_ijon_tracing = 0;
  agent_non_reload_mode = 0;
  trace_buffer_vaddr = 0;
  ijon_trace_buffer_vaddr = 0;
  coverage_bitmap_size = 0;
  input_buffer_size = 0;
  dump_payloads = 0;
}

-- `host_magic != NYX_HOST_MAGIC || host_version != NYX_HOST_VERSION`
abbrev pub mismatch : HostConfig → Bool
mismatch c = not (c.host_magic == nyx_host_magic) || not (c.host_version == nyx_host_version)

abbrev pub persistent_config : HostConfig → AgentConfig
persistent_config c = record zero_config {
  agent_magic = nyx_agent_magic;
  agent_version = nyx_agent_version;
  agent_non_reload_mode = 1;
  coverage_bitmap_size = c.bitmap_size;
}

-- An agent with a buffer of `limit` bytes and the host understand one another.
abbrev Agree : ℕ → AgentConfig → Option HostConfig → Type 0
Agree limit a none = ⊥
Agree limit a (some c) =
    (c.host_magic ≡ nyx_host_magic)
    × (c.host_version ≡ nyx_host_version)
    × (c.payload_buffer_size ≤ limit)
    × (a.agent_magic ≡ nyx_agent_magic)
    × (a.agent_version ≡ nyx_agent_version)
    × (a.coverage_bitmap_size ≡ c.bitmap_size)

-- Every agent configuration that was submitted answers a configuration of the host that fits.
abbrev pub OnlyAgreed : Env → ℕ → History → Type 0
OnlyAgreed env limit [] = Unit
OnlyAgreed env limit (vmcall id (agent_config_ptr a) ∷ h) =
    (if id == Nyx.set_agent_config then Agree limit a (last_config env h) else Unit)
    × OnlyAgreed env limit h
OnlyAgreed env limit (_ ∷ h) = OnlyAgreed env limit h

-- The agent configurations that a history submits by SET_AGENT_CONFIG, the latest first.
abbrev pub submitted : History → List AgentConfig
submitted [] = []
submitted (vmcall id (agent_config_ptr a) ∷ h) =
    let before = submitted h in if id == Nyx.set_agent_config then a ∷ before else before
submitted (_ ∷ h) = submitted h

-- The handshake as a function: an agent with a buffer of `limit` bytes accepts a host of the right
-- magic and version whose payloads fit, and answers it with one configuration.
abbrev pub accepts : ℕ → HostConfig → Bool
accepts limit c =
    c.host_magic == nyx_host_magic
    && c.host_version == nyx_host_version
    && leb c.payload_buffer_size limit

abbrev pub answer :
    ℕ → (HostConfig → AgentConfig) → HostConfig → List AgentConfig → List AgentConfig
answer limit config c before = if accepts limit c then config c ∷ before else before

-- Surroundings where the host writes `c`, and every call but an abort comes back.
abbrev pub host : HostConfig → Env → Env
host c env = abort_final (live (record env { host_config = λ _. c }))

-- What the fork server answers, and the file system fuzzer.
abbrev pub traced_config : HostConfig → AgentConfig
traced_config c = record zero_config {
  agent_magic = nyx_agent_magic;
  agent_version = nyx_agent_version;
  trace_buffer_vaddr = 0xdeadbeef;
  ijon_trace_buffer_vaddr = 0xdeadbeef;
  coverage_bitmap_size = c.bitmap_size;
}

abbrev pub plain_config : HostConfig → AgentConfig
plain_config c = record zero_config {
  agent_magic = nyx_agent_magic;
  agent_version = nyx_agent_version;
  coverage_bitmap_size = c.bitmap_size;
}
