-- ===== src/Windows/SelfFuzz.antt =====
-- The target of the self-fuzzing program (windows_x86_64/src/userspace/selffuzz_test.c).
pub mod Laws
pub mod Main
use kafl_targets.Base.{ℕ, ⊤, ltb, List}
use kafl_targets.Nyx
use kafl_targets.Machine.{M, stop, when, ◌>>=◌, ◌>>◌, hypercall_raw, word, no_return}
use kafl_targets.Buffer.{probe, bytes_of}

-- `panic`: the hypercall, and a loop without end.
pub panic : M ⊤
unfolding hypercall_raw
panic = hypercall_raw Nyx.panic (word 1) >> stop no_return

-- `fuzzme`, for a size that is not negative.
pub fuzzme : List ℕ → ℕ → M ⊤
unfolding panic
fuzzme input size =
    when (ltb 0x11 size)
      (probe (bytes_of input) "K3rN3lAFL#" panic >> probe (bytes_of input) "PwnT0wn!" panic)
