-- ===== src/MacOs/Driver.antt =====
-- The vulnerable kernel extension (macOS_x86_64/vuln_driver/vuln.c).
pub mod Laws
pub mod Load
use kafl_targets.Base.{
  ℕ, ⊤, Bool, true, false, leb, ltb, List, [], ◌∷◌, ◌==◌, none, get_elem?, if◌then◌else◌, not,
}
use kafl_targets.Base.Int.{ℤ, pos, negsuc, is_zero, is_negative}
use kafl_targets.Machine.{
  M, pure, when, ◌>>=◌, ◌>>◌, perform, libcall, libcall_word, call, num, int, str,
}
use kafl_targets.Buffer.{Memory, probe}

abbrev buffersize : ℕ
buffersize = 255

-- `iosize` after the test for too long an input.
pub clip : ℕ → ℕ
clip iosize = if leb buffersize iosize then buffersize else iosize

-- The local `buffer`: `iosize` bytes of the user's data, and nothing behind them.
pub buffer_of : List ℕ → ℕ → Memory
buffer_of user iosize i = if ltb i iosize then get_elem? user i else none

-- `vuln_write`; PANIC writes to address 0.
pub vuln_write : List ℕ → ℕ → M ℤ
unfolding libcall perform
vuln_write user iosize = do
  failed ← libcall "copyin" (num (clip iosize) ∷ [])
  if not (is_zero failed) then pure (negsuc 0) else (do
    probe (buffer_of user (clip iosize)) "KERNELAFL" (perform (call "*null" []))
    probe (buffer_of user (clip iosize)) "macOS!" (perform (call "*null" []))
    pure (pos 0))

-- `KERN_SUCCESS` and `KERN_FAILURE` are told apart by a Boolean; the globals `device_major` and
-- `device_handle` are part of the result.
pub record Device : Type 0 where
  pub started : Bool
  pub major : ℤ
  pub handle : ℕ

-- `vuln_start`
pub vuln_start : M Device
unfolding libcall libcall_word
vuln_start = do
  device_major ← libcall "cdevsw_add" (int (negsuc 0) ∷ [])
  if is_negative device_major
      then pure (record { started = false; major = device_major; handle = 0 })
      else do
        device_handle ← libcall_word "devfs_make_node" (int device_major ∷ str "vuln" ∷ [])
        if device_handle == 0
            then pure (record { started = false; major = device_major; handle = 0 })
            else pure (record { started = true; major = device_major; handle = device_handle })

-- `vuln_stop`
pub vuln_stop : Device → M ⊤
unfolding perform
vuln_stop d = do
  perform (call "devfs_remove" (num d.handle ∷ []))
  perform (call "cdevsw_remove" (int d.major ∷ []))
