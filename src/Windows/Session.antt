-- ===== src/Windows/Session.antt =====
-- How a gdiplus program sets up fuzzing (windows_x86_64/src/userspace/gdiplus_loadfont.cpp; the same
-- text is in gdiplus.cpp): the payload buffer, the ranges of the host, and the snapshot's mode. The
-- build is the default one, with hypercalls and locked memory, and no debug output.
pub mod Laws
pub mod Runs
use kafl_targets.Base.{ℕ, zero, suc, ⊤, ◌+◌, ◌-◌, ◌^◌, ◌*◌, [], ◌∷◌, ◌==◌, if◌then◌else◌}
use kafl_targets.Base.Int.{ℤ, is_zero}
use kafl_targets.Nyx
use kafl_targets.Nyx.{Range}
use kafl_targets.Machine.{
  M, pure, skip, when, ◌>>=◌, ◌>>◌, hypercall_raw, hprintf, perform, libcall, libcall_word, call,
  num, str, word, History,
}

-- `kAFL_hypercall(HYPERCALL_KAFL_USER_ABORT, 0)`
unfoldable pub user_abort : M ⊤
unfolding hypercall_raw
user_abort = hypercall_raw Nyx.user_abort (word 0) >> skip

-- The exception handler is installed.
unfoldable pub install_handler : M ⊤
unfolding libcall_word hprintf
install_handler = do
  handle ← libcall_word "AddVectoredExceptionHandler" (num 1 ∷ [])
  when (handle == 0) (hprintf "[-] WARNING: Cannot add veh handler %u\n" [])

-- The payload buffer, of PAYLOAD_SIZE bytes, is allocated and locked.
unfoldable pub allocate_buffer : ℕ → M ℕ
unfolding libcall_word libcall hprintf perform user_abort
allocate_buffer payload_size = do
  hprintf "[+] Allocating buffer for kAFL_payload struct\n" []
  payload_buffer ← libcall_word "VirtualAlloc" (num payload_size ∷ [])
  locked ← libcall "VirtualLock" (num payload_buffer ∷ num payload_size ∷ [])
  when (is_zero locked) (
      hprintf "[+] WARNING: Virtuallock failed on payload buffer %lp...\n" (num payload_buffer ∷ [])
      >> user_abort)
  hprintf "[+] Memset kAFL_payload at address %lx (size %d)\n"
      (num payload_buffer ∷ num payload_size ∷ [])
  perform (call "memset" (num payload_buffer ∷ num 0xff ∷ num payload_size ∷ []))
  pure payload_buffer

-- The payload buffer is submitted.
unfoldable pub announce_buffer : ℕ → M ⊤
unfolding hprintf hypercall_raw
announce_buffer payload_buffer = do
  hprintf "[+] Submitting buffer address to hypervisor...\n" []
  hypercall_raw Nyx.get_payload (word payload_buffer)
  skip

pub submit_buffer : ℕ → M ⊤
unfolding allocate_buffer announce_buffer
submit_buffer payload_size = allocate_buffer payload_size >>= announce_buffer

-- The host is asked for its ranges.
unfoldable pub advise_ranges : M ⊤
unfolding libcall_word hprintf perform hypercall_raw
advise_ranges = do
  range_buffer ← libcall_word "VirtualAlloc" (num 0x1000 ∷ [])
  perform (call "memset" (num range_buffer ∷ num 0xff ∷ num 0x1000 ∷ []))
  hprintf "[+] Range buffer %lx...\n" (num range_buffer ∷ [])
  hypercall_raw Nyx.user_range_advise (word range_buffer)
  skip

-- The working set of the process is enlarged for the ranges.
unfoldable pub grow_working_set : M ⊤
unfolding libcall hprintf
grow_working_set = do
  hprintf "[+] Locking fuzzing ranges...\n" []
  grown ← libcall "SetProcessWorkingSetSize" (num (2 ^ 25) ∷ num (2 ^ 64 - 2 ^ 31) ∷ [])
  when (is_zero grown) (hprintf "[-] Err increasing min and max working sizes: %u\n" [])

-- The mode of the processor is submitted.
unfoldable pub submit_mode : M ⊤
unfolding hypercall_raw
submit_mode = hypercall_raw Nyx.user_submit_mode (word Nyx.mode_64) >> skip

-- `ranges` is what the host has written into the range buffer.
module _ (ranges : History → ℕ → Range) where
  abbrev range_at : ℕ → M Range
  range_at i env h = pure (ranges h i) env h

  -- The body of the loop over the ranges.
  lock_range : ℕ → M ⊤
  unfolding libcall hprintf user_abort
  lock_range i = do
    r ← range_at i
    hprintf "[+] Range %d enabled: %x\t(%p-%p)\n"
        (num i ∷ num r.enabled ∷ num r.ip ∷ num r.size ∷ [])
    if r.ip == 0 then skip else do
      locked ← libcall "VirtualLock" (num r.ip ∷ num r.size ∷ [])
      if is_zero locked
          then (hprintf "[-] WARNING: VirtualLock failed on range %d (%u)\n" (num r.enabled ∷ [])
              >> user_abort)
          else hprintf "[+] Range %d locked\n" (num r.enabled ∷ [])

  -- The rest of the loop, from the range `i` on.
  lock_from : ℕ → ℕ → M ⊤
  unfolding lock_range
  lock_from zero i = skip
  lock_from (suc n) i = lock_range i >> lock_from n (i + 1)

  -- The ranges are locked, and the mode of the processor is submitted.
  pub lock_ranges : M ⊤
  unfolding grow_working_set lock_from submit_mode
  lock_ranges = grow_working_set >> (lock_from 4 0 >> submit_mode)

  -- From the exception handler to the loop.
  pub open_session : ℕ → M ⊤
  unfolding submit_buffer advise_ranges lock_ranges
  open_session payload_size = submit_buffer payload_size >> (advise_ranges >> lock_ranges)
