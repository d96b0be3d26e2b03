-- ===== src/Zephyr/Agent.antt =====
-- The Zephyr agent (zephyr_x86_32/src/main.c), with its payload buffer in .bss.
pub mod Laws
use kafl_targets.Base.{ℕ, ⊤, ◌*◌, not, ltb, [], ◌∷◌, ◌==◌}
use kafl_targets.Nyx
use kafl_targets.Machine.{
  M, skip, when, ◌>>=◌, ◌>>◌, hypercall_raw, hprintf, habort, host_config, payload, perform, call,
  target, repeat, num, str, word, host_config_ptr, agent_config_ptr,
}
use kafl_targets.Harness.{Harness}
use kafl_targets.Handshake.{mismatch, persistent_config}

abbrev pub payload_max_size : ℕ
payload_max_size = 128 * 1024

-- The part of `agent_init` before GET_HOST_CONFIG; a handler's address is 0 for NULL.
pub greet : ℕ → ℕ → M ⊤
unfolding hypercall_raw hprintf
greet panic_handler kasan_handler = do
  hprintf "Initiate fuzzer handshake...\n" []
  hypercall_raw Nyx.acquire (word 0)
  hypercall_raw Nyx.release (word 0)
  hypercall_raw Nyx.submit_cr3 (word 0)
  hypercall_raw Nyx.user_submit_mode (word Nyx.mode_32)
  when (not (panic_handler == 0)) (hypercall_raw Nyx.submit_panic (word panic_handler) >> skip)
  when (not (kasan_handler == 0)) (hypercall_raw Nyx.submit_kasan (word kasan_handler) >> skip)

-- The part of `agent_init` from GET_HOST_CONFIG on.
pub negotiate : M ⊤
unfolding hypercall_raw hprintf habort
negotiate = do
  hypercall_raw Nyx.get_host_config host_config_ptr
  c ← host_config
  when (mismatch c) (
      hprintf "host_config magic/version mismatch!\n" []
      >> habort "GET_HOST_CNOFIG magic/version mismatch!\n")
  hprintf "\thost_config.bitmap_size: 0x%lx\n" (num c.bitmap_size ∷ [])
  hprintf "\thost_config.ijon_bitmap_size: 0x%lx\n" (num c.ijon_bitmap_size ∷ [])
  hprintf "\thost_config.payload_buffer_size: 0x%lx\n" (num c.payload_buffer_size ∷ [])
  when (ltb payload_max_size c.payload_buffer_size) (habort "Insufficient guest payload buffer!\n")
  hypercall_raw Nyx.set_agent_config (agent_config_ptr (persistent_config c))
  skip

-- `agent_init`
pub agent_init : ℕ → ℕ → M ⊤
unfolding greet negotiate
agent_init panic_handler kasan_handler = greet panic_handler kasan_handler >> negotiate

-- The reasons of the kernel's fatal errors that the handler tells apart.
pub data Reason : Type 0 where
  cpu_exception kernel_oops kernel_panic other : Reason

-- `k_sys_fatal_error_handler`
fatal_error_handler : Reason → M ⊤
unfolding hypercall_raw perform
fatal_error_handler reason = do
  elim reason [
    | kernel_oops ↦ hypercall_raw Nyx.kasan (word 0)
    | _ ↦ hypercall_raw Nyx.panic (word 0)
  ]
  perform (call "k_fatal_halt" [])

-- The greetings of `main`, where both handlers are NULL.
pub hello : M ⊤
unfolding hprintf
hello = do
  hprintf "kAFL Hello World! %s\n\n" (str "CONFIG_BOARD" ∷ [])
  hprintf "Kernel Panic Handler Address:\t%p\n" (num 0 ∷ [])

-- `agent_run` up to GET_PAYLOAD, with its buffer at the address `bss_buffer`.
pub submit_buffer : ℕ → M ⊤
unfolding hypercall_raw perform
submit_buffer bss_buffer = do
  perform (call "memset" (num bss_buffer ∷ num 0 ∷ num payload_max_size ∷ []))
  hypercall_raw Nyx.get_payload (word bss_buffer)
  skip

module _ (harness : Harness) where
  -- `agent_run` before its loop; `target_init` is the harness's.
  pub set_up : ℕ → M ⊤
  unfolding submit_buffer hprintf
  set_up bss_buffer =
      submit_buffer bss_buffer >> (harness.init >> hprintf "Target init done...\n" [])

  -- One round of the loop of `agent_run`; `target_entry` is the harness's.
  pub agent_round : M ⊤
  unfolding hypercall_raw perform
  agent_round = do
    hypercall_raw Nyx.next_payload (word 0)
    hypercall_raw Nyx.acquire (word 0)
    p ← payload
    harness.run p
    hypercall_raw Nyx.release (word 0)
    skip

  -- `agent_run` up to the end of its `n`-th round.
  pub agent_run : ℕ → ℕ → M ⊤
  unfolding set_up
  agent_run bss_buffer n = set_up bss_buffer >> repeat n agent_round

  -- `main`
  pub zephyr_main : ℕ → ℕ → M ⊤
  unfolding hello agent_init
  zephyr_main bss_buffer n = hello >> (agent_init 0 0 >> agent_run bss_buffer n)
