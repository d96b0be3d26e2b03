-- ===== src/Windows/Agent.antt =====
-- The kernel fuzzing agent (windows_x86_64/src/driver/vuln_test.c).
pub mod Laws
use kafl_targets.Base.{ℕ, ⊤, ◌*◌, Bool, ltb, List, [], ◌∷◌, ◌==◌}
use kafl_targets.Nyx
use kafl_targets.Machine.{
  M, pure, skip, when, ◌>>=◌, ◌>>◌, hypercall_raw, hprintf, habort, host_config, payload, perform,
  libcall_word, call, target, num, str, word, host_config_ptr, agent_config_ptr,
}
use kafl_targets.Handshake.{mismatch, persistent_config}
use kafl_targets.Windows.Drivers.{Module, set_ip_range, init_panic_handlers}

abbrev pub payload_max_size : ℕ
payload_max_size = 128 * 1024

-- `init_agent_handshake`
pub init_agent_handshake : M ⊤
unfolding hypercall_raw hprintf habort
init_agent_handshake = do
  hprintf "Initiate fuzzer handshake...\n" []
  hypercall_raw Nyx.acquire (word 0)
  hypercall_raw Nyx.release (word 0)
  hypercall_raw Nyx.submit_cr3 (word 0)
  hypercall_raw Nyx.user_submit_mode (word Nyx.mode_64)
  hypercall_raw Nyx.get_host_config host_config_ptr
  c ← host_config
  when (mismatch c) (
      hprintf "host_config magic/version mismatch!\n" []
      >> habort "GET_HOST_CNOFIG magic/version mismatch!\n")
  hprintf "\thost_config.bitmap_size: 0x%lx\n" (num c.bitmap_size ∷ [])
  hprintf "\thost_config.ijon_bitmap_size: 0x%lx\n" (num c.ijon_bitmap_size ∷ [])
  hprintf "\thost_config.payload_buffer_size: 0x%lx\n" (num c.payload_buffer_size ∷ [])
  when (ltb payload_max_size c.payload_buffer_size) (habort "Insufficient guest payload buffer!\n")
  hypercall_raw Nyx.set_agent_config (agent_config_ptr (persistent_config c))
  skip

-- `main` up to the handle of the driver, which is 0 for INVALID_HANDLE_VALUE; the result is the
-- payload buffer.
pub open_driver : M ℕ
unfolding libcall_word hprintf habort perform
open_driver = do
  payload_buffer ← libcall_word "VirtualAlloc" (num payload_max_size ∷ [])
  perform (call "memset" (num payload_buffer ∷ []))
  kafl_vuln_handle ← libcall_word "CreateFile" (str "\\\\.\\testKafl" ∷ [])
  when (kafl_vuln_handle == 0) (
      hprintf "[-] KAFL test: Cannot get device handle: 0x%X\n" []
      >> habort "Cannot get device handle\n")
  pure payload_buffer

-- `main` between the panic handlers and the snapshot.
pub submit_memory : Bool → List Module → ℕ → M ⊤
unfolding hypercall_raw
submit_memory fits modules payload_buffer = do
  hypercall_raw Nyx.submit_cr3 (word 0)
  hypercall_raw Nyx.get_payload (word payload_buffer)
  set_ip_range fits modules

-- `main` from the snapshot on: `DeviceIoControl` hands the payload to the driver.
pub fuzz_once : M ⊤
unfolding hypercall_raw perform
fuzz_once = do
  hypercall_raw Nyx.next_payload (word 0)
  hypercall_raw Nyx.acquire (word 0)
  p ← payload
  perform (target p)
  hypercall_raw Nyx.release (word 0)
  skip

-- `main`, on the drivers that the system lists; `fits` says whether their table has room for them
-- all.
pub agent_main : Bool → List Module → M ⊤
unfolding open_driver init_agent_handshake submit_memory fuzz_once
agent_main fits modules = do
  payload_buffer ← open_driver
  init_agent_handshake
  init_panic_handlers fits modules
  submit_memory fits modules payload_buffer
  fuzz_once
