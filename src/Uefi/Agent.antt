-- ===== src/Uefi/Agent.antt =====
-- The agent library of the UEFI targets (kAFLAgentLib.c): handshake, main loop and entry point.
-- The target that is linked in is the parameter `harness`.
pub mod Laws
use kafl_targets.Base.{ℕ, ⊤, Bool, ◌+◌, ◌*◌, ◌/◌, ◌%◌, ◌^◌, not, ltb, ◌==◌, [], ◌∷◌}
use kafl_targets.Nyx
use kafl_targets.Nyx.{nyx_host_magic, nyx_host_version}
use kafl_targets.Machine.{
  M, when, skip, ◌>>=◌, ◌>>◌, hypercall_raw, hprintf, habort, host_config, payload, perform, call,
  target, repeat, num, word, host_config_ptr, agent_config_ptr,
}
use kafl_targets.Harness.{Harness}
use kafl_targets.Handshake.{mismatch, persistent_config}

abbrev pub payload_max_size : ℕ
payload_max_size = 128 * 1024

-- The part of `agent_init` from GET_HOST_CONFIG to SET_AGENT_CONFIG.
pub negotiate : M ⊤
unfolding hypercall_raw hprintf habort
negotiate = do
  hypercall_raw Nyx.get_host_config host_config_ptr
  c ← host_config
  when (mismatch c) (
      hprintf "host_config magic/version mismatch hm: 0x%08x, hv: 0x%08x, am: 0x%08x, av: 0x%08x!\n"
        (num c.host_magic ∷ num c.host_version ∷ num nyx_host_magic ∷ num nyx_host_version ∷ [])
      >> habort "GET_HOST_CONFIG magic/version mismatch!\n")
  hprintf "\thost_config.bitmap_size: 0x%lx\n" (num c.bitmap_size ∷ [])
  hprintf "\thost_config.ijon_bitmap_size: 0x%lx\n" (num c.ijon_bitmap_size ∷ [])
  hprintf "\thost_config.payload_buffer_size: 0x%lx\n" (num c.payload_buffer_size ∷ [])
  when (ltb payload_max_size c.payload_buffer_size) (
      hprintf
        "Host payload buffer requested size is too large, please build the harness with a larger one!\n"
        []
      >> habort "GET_HOST_CONFIG harness payload buffer too small\n")
  hprintf "Sending agent configuration\n" []
  hypercall_raw Nyx.set_agent_config (agent_config_ptr (persistent_config c))
  hprintf "End send agent configuration\n" []

-- `agent_init` before the target's initialisation; a handler's address is 0 for NULL.
pub handshake : ℕ → ℕ → M ⊤
unfolding negotiate
handshake panic_handler kasan_handler = do
  hypercall_raw Nyx.acquire (word 0)
  hypercall_raw Nyx.release (word 0)
  when (not (panic_handler == 0)) (hypercall_raw Nyx.submit_panic (word panic_handler) >> skip)
  when (not (kasan_handler == 0)) (hypercall_raw Nyx.submit_kasan (word kasan_handler) >> skip)
  hprintf "Fuzzer handshake done\n" []
  negotiate

-- `(a + 0x1000) & 0xfffffffffffff000` in 64 bits.
pub align_up : ℕ → ℕ
align_up a = (a + 0x1000) % 2 ^ 64 / 0x1000 * 0x1000

module _ (harness : Harness) where
  -- `agent_init`; `InitTestHarness` is the harness's.
  pub agent_init : ℕ → ℕ → M ⊤
  unfolding handshake
  agent_init panic_handler kasan_handler = handshake panic_handler kasan_handler >> harness.init

  -- One round of the loop of `agent_run`; `RunTestHarness` is the harness's.
  pub agent_round : M ⊤
  unfolding hypercall_raw perform
  agent_round = do
    hypercall_raw Nyx.next_payload (word 0)
    hypercall_raw Nyx.acquire (word 0)
    p ← payload
    harness.run p
    hypercall_raw Nyx.release (word 0)
    skip

  -- `agent_run` up to the end of its `n`-th round, with its stack buffer at the address `buffer`.
  pub agent_run : ℕ → ℕ → M ⊤
  unfolding hypercall_raw
  agent_run buffer n = do
    hypercall_raw Nyx.get_payload (word (align_up buffer))
    hypercall_raw Nyx.submit_cr3 (word 0)
    repeat n agent_round

  -- `UefiMain`
  pub uefi_main : ℕ → ℕ → M ⊤
  uefi_main buffer n = agent_init 0 0 >> agent_run buffer n
