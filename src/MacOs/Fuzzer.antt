-- ===== src/MacOs/Fuzzer.antt =====
-- The fuzzing program of the vulnerable kernel extension (macOS_x86_64/fuzzer/vuln_test.c).
-- PAYLOAD_SIZE of kafl_user.h is a parameter.
pub mod Laws
pub mod Machine
use kafl_targets.Base.{ℕ, ⊤, [], ◌∷◌}
use kafl_targets.Base.Int.{ℤ}
use kafl_targets.Nyx
use kafl_targets.Machine.{
  M, pure, skip, ◌>>=◌, ◌>>◌, hypercall_raw, perform, libcall, libcall_word, call, target, payload,
  num, int, str, word, repeat,
}
use kafl_targets.Harness.{length_of}

-- `main` up to its loop; the result is the handle of the device.
pub open_device : ℕ → M ℤ
unfolding libcall libcall_word perform hypercall_raw
open_device payload_size = do
  payload_buffer ← libcall_word "mmap" (num 0xabcd0000 ∷ num payload_size ∷ [])
  perform (call "memset" (num payload_buffer ∷ num 0xff ∷ num payload_size ∷ []))
  kafl_vuln_fd ← libcall "open" (str "/dev/vuln" ∷ [])
  hypercall_raw Nyx.get_payload (word payload_buffer)
  hypercall_raw Nyx.submit_cr3 (word 0)
  pure kafl_vuln_fd

-- One round of the loop of `main`: the payload is written to the device.
pub fuzz_round : ℤ → M ⊤
unfolding hypercall_raw perform
fuzz_round kafl_vuln_fd = do
  hypercall_raw Nyx.next_payload (word 0)
  hypercall_raw Nyx.acquire (word 0)
  p ← payload
  perform (target p)
  perform (call "write" (int kafl_vuln_fd ∷ num (length_of 64 p) ∷ []))
  hypercall_raw Nyx.release (word 0)
  skip

-- `main` up to its `n`-th round.
pub fuzzer_main : ℕ → ℕ → M ⊤
unfolding open_device
fuzzer_main payload_size n = open_device payload_size >>= λ fd. repeat n (fuzz_round fd)
