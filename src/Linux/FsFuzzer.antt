-- ===== src/Linux/FsFuzzer.antt =====
-- The file system fuzzer (fs_fuzzer/src/fs_fuzzer.c): payloads are written to a loop device and
-- mounted.
pub mod Laws
use kafl_targets.Base.{
  ℕ, ⊤, Bool, true, false, ◌*◌, ◌/◌, not, ltb, String, List, [], ◌∷◌, ◌==◌, if◌then◌else◌,
}
use kafl_targets.Base.Int.{ℤ, pos, negsuc, is_minus_one, is_zero}
use kafl_targets.Nyx
use kafl_targets.Nyx.{nyx_host_magic, nyx_host_version, nyx_agent_magic, nyx_agent_version}
use kafl_targets.Machine.{
  M, pure, skip, stop, when, ◌>>=◌, ◌>>◌, hypercall_raw, perform, libcall, hprintf, habort,
  host_config, payload, repeat, num, int, str, word, host_config_ptr, agent_config_ptr, call,
  assertion, exited,
}
use kafl_targets.Handshake.{zero_config}
use kafl_targets.Linux.Agent.Pages.{page_size, malloc_resident_pages}

abbrev pub payload_max_size : ℕ
payload_max_size = 1 * 1024 * 1024

-- `CHECK_ERRNO(x, msg)`
pub check_errno : Bool → String → M ⊤
unfolding habort
check_errno true msg = skip
check_errno false msg = habort msg >> stop (exited 1)

-- `agent_init`
pub agent_init : M ℤ
unfolding hypercall_raw hprintf habort
agent_init = do
  hypercall_raw Nyx.acquire (word 0)
  hypercall_raw Nyx.release (word 0)
  hypercall_raw Nyx.get_host_config host_config_ptr
  c ← host_config
  if not (c.host_magic == nyx_host_magic)
      then (do
        hprintf "HOST_MAGIC mismatch: %08x != %08x\n" (num c.host_magic ∷ num nyx_host_magic ∷ [])
        habort "HOST_MAGIC mismatch!"
        pure (negsuc 0))
      else if not (c.host_version == nyx_host_version)
      then (do
        hprintf "HOST_VERSION mismatch: %08x != %08x\n"
            (num c.host_version ∷ num nyx_host_version ∷ [])
        habort "HOST_VERSION mismatch!"
        pure (negsuc 0))
      else if ltb payload_max_size c.payload_buffer_size
      then (do
        hprintf "Fuzzer payload size too large: %lu > %lu\n"
            (num c.payload_buffer_size ∷ num payload_max_size ∷ [])
        habort "Host payload size too large!"
        pure (negsuc 0))
      else do
        hypercall_raw Nyx.set_agent_config (
            agent_config_ptr (record zero_config {
              agent_magic = nyx_agent_magic;
              agent_version = nyx_agent_version;
              coverage_bitmap_size = c.bitmap_size;
            }))
        pure (pos 0)

-- `(size_t)size > sizeof(mountflags)`: a negative size becomes a very large one.
abbrev exceeds_flags : ℤ → Bool
exceeds_flags (pos n) = ltb 8 n
exceeds_flags (negsuc n) = true

-- `a == b` for signed numbers.
abbrev eq_int : ℤ → ℤ → Bool
eq_int (pos a) (pos b) = a == b
eq_int (negsuc a) (negsuc b) = a == b
eq_int (pos a) (negsuc b) = false
eq_int (negsuc a) (pos b) = false

-- A successful mount is used and undone.
exercise : M ⊤
unfolding hprintf perform
exercise = do
  hprintf "mount() => success!\n" []
  perform (call "mkdir" (str "/tmp/a/trash" ∷ num 0o700 ∷ []))
  perform (call "stat" (str "/tmp/a/trash" ∷ []))
  perform (call "umount2" (str "/tmp/a" ∷ []))

-- The capacity of the loop device and the mount, after a write that returned `ret`.
pub mount_image : ℤ → ℤ → String → M ⊤
unfolding libcall check_errno exercise
mount_image loopfd ret filesystemtype = do
  libcall "ioctl" (int loopfd ∷ str "LOOP_SET_CAPACITY" ∷ num 0 ∷ [])
  check_errno (not (is_minus_one ret)) "Failed to ioctl(LOOP_SET_CAPACITY"
  ret ← libcall "mount" (str "/tmp/a/" ∷ str filesystemtype ∷ [])
  when (is_zero ret) exercise

-- The payload is written to the backing file, and the image is mounted.
write_image : ℤ → ℤ → ℤ → String → M ⊤
unfolding libcall check_errno hprintf mount_image
write_image loopfd backingfile size filesystemtype = do
  ret ← libcall "write" (int backingfile ∷ int size ∷ [])
  check_errno (not (is_minus_one ret)) "Failed to write backingfile"
  when (not (eq_int ret size)) (hprintf "Incomplete write to backingfile" [])
  mount_image loopfd ret filesystemtype

-- The loop's body up to the hypercalls, for a payload of the given size.
try_mount : ℤ → ℤ → ℤ → String → M ⊤
unfolding libcall check_errno write_image
try_mount loopfd backingfile size filesystemtype = when (exceeds_flags size) (do
  ret ← libcall "lseek" (int backingfile ∷ num 0 ∷ [])
  check_errno (not (is_minus_one ret)) "Failed to seek in backingfile"
  write_image loopfd backingfile size filesystemtype)

-- One round of the loop; the first is a warm-up on a payload of size 20.
mount_round : ℤ → ℤ → String → ℤ → M ⊤
unfolding try_mount hypercall_raw
mount_round loopfd backingfile filesystemtype size = do
  try_mount loopfd backingfile size filesystemtype
  hypercall_raw Nyx.release (word 0)
  hypercall_raw Nyx.next_payload (word 0)
  hypercall_raw Nyx.acquire (word 0)
  skip

pub next_round : ℤ → ℤ → String → M ⊤
unfolding mount_round
next_round loopfd backingfile filesystemtype = do
  p ← payload
  mount_round loopfd backingfile filesystemtype p.size

-- The setting up of the loop device, with the result of `agent_init` ignored: it returns the
-- descriptors of the loop device and of the backing file.
pub set_up : M (ℤ × ℤ)
unfolding perform libcall malloc_resident_pages check_errno agent_init hypercall_raw
set_up = do
  perform (call "system" (str "mkdir -p /tmp/a/" ∷ []))
  pbuf ← malloc_resident_pages (payload_max_size / page_size)
  when (pbuf == 0) (stop assertion)
  loopctlfd ← libcall "open" (str "/dev/loop-control" ∷ [])
  check_errno (not (is_minus_one loopctlfd)) "Failed to open /dev/loop-control"
  devnr ← libcall "ioctl" (int loopctlfd ∷ str "LOOP_CTL_GET_FREE" ∷ [])
  check_errno (not (is_minus_one devnr)) "Failed to get free loop device"
  perform (call "close" (int loopctlfd ∷ []))
  agent_init
  hypercall_raw Nyx.get_payload (word pbuf)
  loopfd ← libcall "open" (str "/dev/loop" ∷ int devnr ∷ [])
  check_errno (not (is_minus_one loopfd)) "Failed to open loop device"
  backingfile ← libcall "open" (str "/tmp/trash" ∷ num 0o777 ∷ [])
  check_errno (not (is_minus_one backingfile)) "Failed to open backing file"
  ret ← libcall "ioctl" (int loopfd ∷ str "LOOP_SET_FD" ∷ int backingfile ∷ [])
  check_errno (not (is_minus_one ret)) "Failed to ioctl(LOOP_SET_FD)"
  pure (loopfd, backingfile)

-- `main` on its arguments behind the name, up to the end of `n` rounds after the warm-up.
fs_main : List String → ℕ → M ⊤
unfolding hprintf set_up mount_round next_round
fs_main [] n = hprintf "Usage: fs_fuzzer <fstype>" [] >> stop (exited 1)
fs_main (filesystemtype ∷ []) n = do
  fds ← set_up
  mount_round fds.0 fds.1 filesystemtype (pos 20)
  repeat n (next_round fds.0 fds.1 filesystemtype)
fs_main (a ∷ b ∷ more) n = hprintf "Usage: fs_fuzzer <fstype>" [] >> stop (exited 1)
