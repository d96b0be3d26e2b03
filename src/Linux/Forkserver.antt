-- ===== src/Linux/Forkserver.antt =====
-- The LD_PRELOAD fork server (forkserver/src/forkserver.c), built for x86_64 with its default
-- options: payloads go to a file or to stdin, nothing is redirected, and persistent mode is off.
pub mod Laws
pub mod Order
pub mod Prepare
pub mod Machine
pub mod Reports
pub mod Round
pub mod Hook
use kafl_targets.Base.{
  ℕ, zero, suc, ⊤, Bool, true, ◌+◌, ◌*◌, ◌/◌, not, ltb, String, Option, none, some, List, [], ◌∷◌,
  ◌==◌, if◌then◌else◌,
}
use kafl_targets.Base.Int.{ℤ, pos, negsuc, is_minus_one, is_zero}
use kafl_targets.Nyx
use kafl_targets.Nyx.{Payload, nyx_host_magic, nyx_host_version, nyx_agent_magic, nyx_agent_version}
use kafl_targets.Machine.{
  M, pure, skip, stop, when, ◌>>=◌, ◌>>◌, hypercall_raw, perform, libcall, libcall_word, errno,
  hprintf, habort, host_config, payload, num, int, str, word, host_config_ptr, agent_config_ptr,
  call, target, assertion, out_of_fuel, bad_access,
}
use kafl_targets.Handshake.{zero_config}
use kafl_targets.Linux.Agent.Cpu.{CpuType, hypercall, hrange_submit}
use kafl_targets.Linux.Agent.Pages.{page_size, malloc_resident_pages}
use kafl_targets.Linux.Forkserver.Round.{errno_fail_on, child, WaitStatus, report}

abbrev pub payload_max_size : ℕ
payload_max_size = 128 * 1024

-- `agent_init`; the CPU type that it detects is the parameter of the functions below.
pub agent_init : M ℤ
unfolding hypercall_raw hprintf habort
agent_init = do
  hypercall_raw Nyx.get_host_config host_config_ptr
  c ← host_config
  if not (c.host_magic == nyx_host_magic)
      then (do
        hprintf "HOST_MAGIC mismatch: %08x != %08x\n" (num c.host_magic ∷ num nyx_host_magic ∷ [])
        habort "HOST_MAGIC mismatch!"
        pure (negsuc 0))
      else if not (c.host_version == nyx_host_version)
      then (do
        hprintf "HOST_VERSION mismatch: %08x != %08x\n"
            (num c.host_version ∷ num nyx_host_version ∷ [])
        habort "HOST_VERSION mismatch!"
        pure (negsuc 0))
      else if ltb payload_max_size c.payload_buffer_size
      then (do
        hprintf "Fuzzer payload size too large: %lu > %lu\n"
            (num c.payload_buffer_size ∷ num payload_max_size ∷ [])
        habort "Host payload size too large!"
        pure (negsuc 0))
      else do
        hypercall_raw Nyx.set_agent_config (
            agent_config_ptr (record zero_config {
              agent_magic = nyx_agent_magic;
              agent_version = nyx_agent_version;
              trace_buffer_vaddr = 0xdeadbeef;
              ijon_trace_buffer_vaddr = 0xdeadbeef;
              coverage_bitmap_size = c.bitmap_size;
            }))
        hypercall_raw Nyx.acquire (word 0)
        hypercall_raw Nyx.release (word 0)
        pure (pos 0)

module _ (depth : ℕ) (cpu : CpuType) where
  -- The loop of `detectranges` over the lines of the map file. `scan` is `sscanf` at the format of
  -- that file, and `matches` is `strstr(file, pattern)`.
  pub range_loop : (String → Option (ℕ × ℕ × String)) → (String → Bool) → List String → ℕ → M ℕ
  unfolding hprintf hrange_submit perform
  range_loop scan matches [] region = pure region
  range_loop scan matches (line ∷ lines) region = elim (scan line) [
    | none ↦ range_loop scan matches lines region
    | some (start, end, file) ↦
        if matches file
        then (do
          hprintf " => matched range %u: %lx-%lx (%s)\n"
              (num region ∷ num start ∷ num end ∷ str file ∷ [])
          hrange_submit depth cpu region start end
          perform (call "free" (str file ∷ []))
          range_loop scan matches lines (region + 1))
        else range_loop scan matches lines region
  ]

  -- `detectranges`, on the lines that `fgets` delivers; it would read from a null stream.
  pub detectranges :
      (String → Option (ℕ × ℕ × String)) → (String → Bool) → List String → String → M ℕ
  unfolding libcall_word errno_fail_on range_loop
  detectranges scan matches lines mapfile = do
    fp ← libcall_word "fopen" (str mapfile ∷ str "r" ∷ [])
    errno_fail_on (fp == 0) "fopen() failure"
    if fp == 0 then stop bad_access else range_loop scan matches lines 0

  -- `snapshot_reload`: persistent mode is off.
  pub snapshot_reload : M ⊤
  unfolding hypercall
  snapshot_reload = hypercall depth cpu Nyx.release (word 0) >> skip

-- The loop of `forkserver`, in the process that `fork` continues: `wait` decodes the status of
-- the round with `n` more to come. It ends in the child, where the handler of `atexit` runs behind
-- `main`.
pub serve : ℕ → CpuType → Bool → (ℕ → WaitStatus) → ℕ → M ⊤
unfolding libcall child perform report snapshot_reload
serve depth cpu stdin_mode wait zero = stop out_of_fuel
serve depth cpu stdin_mode wait (suc n) = do
  pid ← libcall "fork" []
  if is_minus_one pid
      then stop assertion
      else if is_zero pid
      then child stdin_mode >> snapshot_reload depth cpu
      else do
        perform (call "waitpid" (int pid ∷ []))
        report (wait n)
        serve depth cpu stdin_mode wait n

-- `dup2(open("/dev/null", ..), to)`
redirect : ℕ → String → M ⊤
unfolding libcall errno_fail_on
redirect to msg = do
  fd ← libcall "open" (str "/dev/null" ∷ [])
  ret ← libcall "dup2" (int fd ∷ num to ∷ [])
  errno_fail_on (is_minus_one ret) msg

-- `forkserver` up to `agent_init`.
redirect_all : Bool → M ⊤
unfolding libcall errno_fail_on redirect
redirect_all stdin_mode = do
  ret ← libcall "pipe" []
  errno_fail_on (is_minus_one ret) "pipe"
  redirect 1 "dup2(STDOUT)"
  redirect 2 "dup2(STDERR)"
  when (not stdin_mode) (redirect 0 "dup2(STDIN)")

-- The payload buffer is submitted, and the mode of the processor.
submit_buffer : M ⊤
unfolding malloc_resident_pages hypercall_raw
submit_buffer = do
  payload_buffer ← malloc_resident_pages (payload_max_size / page_size)
  hypercall_raw Nyx.get_payload (word payload_buffer)
  hypercall_raw Nyx.user_submit_mode (word Nyx.mode_64)
  skip

-- The ranges are submitted, and there has to be one.
submit_ranges :
    ℕ → CpuType → (String → Option (ℕ × ℕ × String)) → (String → Bool) → List String → M ⊤
unfolding detectranges habort hprintf
submit_ranges depth cpu scan matches lines = do
  regions ← detectranges depth cpu scan matches lines "/proc/self/maps"
  when (ltb regions 1) (habort "No IP ranges registered?!")
  hprintf "main() => 0x%lx\n" []

-- `forkserver` before its loop, in a process where `get_nyx_cpu_type` detects `cpu`.
pub prepare :
    ℕ → CpuType → (String → Option (ℕ × ℕ × String)) → (String → Bool) → List String → Bool → M ⊤
unfolding redirect_all agent_init submit_buffer submit_ranges
prepare depth cpu scan matches lines stdin_mode =
    redirect_all stdin_mode
    >> (agent_init >> (submit_buffer >> submit_ranges depth cpu scan matches lines))

-- `forkserver`
pub forkserver :
    ℕ
    → CpuType
    → (String → Option (ℕ × ℕ × String))
    → (String → Bool)
    → List String
    → Bool
    → (ℕ → WaitStatus)
    → ℕ
    → M ⊤
unfolding prepare serve
forkserver depth cpu scan matches lines stdin_mode wait n =
    prepare depth cpu scan matches lines stdin_mode >> serve depth cpu stdin_mode wait n
