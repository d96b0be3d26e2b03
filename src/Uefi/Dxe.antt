-- ===== src/Uefi/Dxe.antt =====
-- The harness as a DXE driver (kAFLDxe.c). The target library that is linked in is the
-- parameter `harness`.
pub mod Laws
use kafl_targets.Base.{ℕ, ⊤, ◌*◌, ◌/◌, Bool, if◌then◌else◌, not, ltb, [], ◌∷◌, ◌==◌}
use kafl_targets.Nyx
use kafl_targets.Nyx.{nyx_host_magic, nyx_host_version}
use kafl_targets.Machine.{
  M, pure, skip, stop, assertion, when, ◌>>=◌, ◌>>◌, hypercall_raw, hprintf, habort, host_config,
  payload, perform, libcall_word, call, target, repeat, num, word, host_config_ptr,
  agent_config_ptr,
}
use kafl_targets.Harness.{Harness}
use kafl_targets.Handshake.{mismatch, persistent_config}

abbrev pub payload_max_size : ℕ
payload_max_size = 128 * 1024

-- `HarnessInit`; a handler's address is 0 for NULL.
pub harness_init : ℕ → ℕ → M ⊤
unfolding hypercall_raw hprintf habort
harness_init panic_handler kasan_handler = do
  hypercall_raw Nyx.acquire (word 0)
  hypercall_raw Nyx.release (word 0)
  when (not (panic_handler == 0)) (hypercall_raw Nyx.submit_panic (word panic_handler) >> skip)
  when (not (kasan_handler == 0)) (hypercall_raw Nyx.submit_kasan (word kasan_handler) >> skip)
  hprintf "Fuzzer handshake done\n" []
  hypercall_raw Nyx.get_host_config host_config_ptr
  c ← host_config
  when (mismatch c) (
      hprintf "host_config magic/version mismatch hm: 0x%08x, hv: 0x%08x, am: 0x%08x, av: 0x%08x!\n"
        (num c.host_magic ∷ num c.host_version ∷ num nyx_host_magic ∷ num nyx_host_version ∷ [])
      >> habort "GET_HOST_CONFIG magic/version mismatch!\n")
  hprintf "\thost_config.bitmap_size: 0x%lx\n" (num c.bitmap_size ∷ [])
  hprintf "\thost_config.ijon_bitmap_size: 0x%lx\n" (num c.ijon_bitmap_size ∷ [])
  hprintf "\thost_config.payload_buffer_size: 0x%lx\n" (num c.payload_buffer_size ∷ [])
  when (ltb payload_max_size c.payload_buffer_size) (
      hprintf
        "Host payload buffer requested size is too large, please build the harness with a larger one!\n"
        []
      >> habort "GET_HOST_CONFIG harness payload buffer too small\n")
  hprintf "Sending agent configuration\n" []
  hypercall_raw Nyx.set_agent_config (agent_config_ptr (persistent_config c))
  hprintf "End send agent configuration\n" []

-- `InitializekAFLDxe`: the result is the address of the payload buffer, which takes 4 KB pages.
pub initialize : (ℕ → Bool) → M ℕ
unfolding libcall_word harness_init
initialize efi_error = do
  status ← libcall_word "InstallMultipleProtocolInterfaces" []
  if efi_error status then stop assertion else do
    payload_buffer ← libcall_word "AllocatePages" (num (payload_max_size / 4096) ∷ [])
    harness_init 0 0
    pure payload_buffer

-- `EFI_KAFL_DXE_PROTOCOL`; the fuzzing runs for a number of rounds.
pub record Protocol : Type 0 where
  pub noop : M ⊤
  pub fuzz : ℕ → M ⊤

module _ (harness : Harness) where
  -- One round of the loop of `HarnessRun`; `RunkAFLTarget` is the harness's.
  pub harness_round : M ⊤
  unfolding hypercall_raw perform
  harness_round = do
    hypercall_raw Nyx.next_payload (word 0)
    hypercall_raw Nyx.acquire (word 0)
    p ← payload
    harness.run p
    hypercall_raw Nyx.release (word 0)
    skip

  -- `HarnessRun` up to the end of its `n`-th round.
  pub harness_run : ℕ → ℕ → M ⊤
  unfolding hypercall_raw
  harness_run payload_buffer n = do
    hypercall_raw Nyx.get_payload (word payload_buffer)
    repeat n harness_round

  -- `gkAFLDxe`: `kAFLDxeNoop` prints debug output, and `kAFLDxeFuzz` runs the harness on the
  -- driver's buffer.
  unfoldable pub protocol : ℕ → Protocol
  unfolding harness_run
  protocol payload_buffer = record { noop = skip; fuzz = harness_run payload_buffer }
