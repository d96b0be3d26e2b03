-- ===== src/Zephyr/Target.antt =====
-- The test target (zephyr_x86_32/src/target_test.c). Its console output is left out.
pub mod Laws
use kafl_targets.Base.{ℕ, ◌-◌, leb, ltb, List, [], none, some, get_elem?, ◌==◌, if◌then◌else◌}
use kafl_targets.Machine.{M, pure, stop, bad_access, when, ◌>>=◌, ◌>>◌, perform, call}
use kafl_targets.Buffer.{Memory, probe}

abbrev pub input_length : ℕ
input_length = 32

-- The length that is copied.
pub clip : ℕ → ℕ
clip len = if leb input_length len then input_length - 1 else len

-- The local array `input`: `len` bytes of the payload, a terminator, and nothing behind it.
pub input_of : List ℕ → ℕ → Memory
input_of buf len i = if ltb i len then get_elem? buf i else if i == len then some 0 else none

-- The comparisons of `target_entry`, with `len` bytes in the local array.
pub test_input : List ℕ → ℕ → M ℕ
unfolding perform input_of
test_input buf len = do
  let input = input_of buf len
  probe input "KERNELAFL" (perform (call "k_panic" []))
  probe input "SERGEJ" (perform (call "k_panic" []))
  probe input "KASAN" (perform (call "k_oops" []))
  probe input "RedQueen" (perform (call "k_oops" []))
  pure len

-- `target_entry`: the copy fills the array up to the length, and the terminator lies behind it.
pub target_entry : List ℕ → ℕ → M ℕ
unfolding clip test_input
target_entry buf len =
    if ltb (clip len) input_length then test_input buf (clip len) else stop bad_access
