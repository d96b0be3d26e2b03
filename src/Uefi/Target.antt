-- ===== src/Uefi/Target.antt =====
-- The target of the null package (kAFLDxeTargetLib.c).
pub mod Laws
use kafl_targets.Base.{ℕ, ⊤, ltb, List, if◌then◌else◌}
use kafl_targets.Nyx
use kafl_targets.Machine.{M, skip, when, ◌>>=◌, ◌>>◌, hypercall_raw, word}
use kafl_targets.Buffer.{probe, bytes_of}
use kafl_targets.Harness.{Harness, under_test, length_of}

-- `InitkAFLTarget`
pub init_target : M ⊤
unfolding hypercall_raw
init_target = hypercall_raw Nyx.user_submit_mode (word Nyx.mode_64) >> skip

-- `RunkAFLTarget`; its status is always EFI_SUCCESS.
pub run_target : List ℕ → ℕ → M ⊤
unfolding hypercall_raw
run_target input input_size =
    if ltb input_size 4
    then skip
    else probe (bytes_of input) "dead" (hypercall_raw Nyx.panic (word 0) >> skip)

-- The target, as the DXE harness is linked with it.
abbrev pub null_harness : Harness
null_harness = record {
  init = init_target;
  run = λ p. under_test p (run_target p.content (length_of 64 p));
}
