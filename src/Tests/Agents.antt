-- ===== src/Tests/Agents.antt =====
-- The agents of the firmware and kernel targets, on a host that understands them.
use kafl_targets.Base.{ℕ, Bool, leb, ◌^◌, ◌≡◌, some, []}
use kafl_targets.Machine.{After, Returns, live}
use kafl_targets.Cycle.{phase, idle, InOrder, runs}
use kafl_targets.Cycle.Trace.{Trace, IsRun}
use kafl_targets.Uefi.Agent.{uefi_main}
use kafl_targets.Uefi.Agent.Laws.{uefi_main-refines, uefi_main-runs}
use kafl_targets.Uefi.App.{load_and_fuzz}
use kafl_targets.Uefi.App.Laws.{load_and_fuzz-InOrder}
use kafl_targets.Uefi.Target.{null_harness}
use kafl_targets.Uefi.Target.Laws.{null-KeepsCycle}
use kafl_targets.Uefi.Decompress.{Decompressor, decompress_harness}
use kafl_targets.Uefi.Decompress.Laws.{decompress-KeepsCycle, decompress-Completes}
use kafl_targets.Zephyr.Agent.{zephyr_main}
use kafl_targets.Zephyr.Agent.Laws.{zephyr_main-InOrder}
use kafl_targets.Zephyr.Linked.{test_harness}
use kafl_targets.Zephyr.Linked.Laws.{test-KeepsIdle}
use kafl_targets.Tests.Samples.{quiet}

-- An error has the highest bit of 64.
abbrev efi_error : ℕ → Bool
efi_error status = leb (2 ^ 63) status

abbrev library : Decompressor
library = record {
  efi_error = efi_error;
  destination_size = λ h. 0x100;
  scratch_size = λ h. 0x3000;
}

uefi_main-refines_example :
    After (λ _ h. Trace h idle) IsRun (uefi_main (decompress_harness library) 0x1234 2 quiet [])
uefi_main-refines_example =
    uefi_main-refines (decompress_harness library) quiet 0x1234 2
      (decompress-KeepsCycle library quiet)

load_and_fuzz-InOrder_example :
    After (λ _ h. phase h ≡ some idle) InOrder (load_and_fuzz efi_error null_harness 2 quiet [])
load_and_fuzz-InOrder_example =
    load_and_fuzz-InOrder efi_error null_harness quiet 2 (null-KeepsCycle quiet)

zephyr_main-InOrder_example :
    After (λ _ h. phase h ≡ some idle) InOrder (zephyr_main test_harness 0x1000 2 quiet [])
zephyr_main-InOrder_example = zephyr_main-InOrder test_harness quiet 0x1000 2 (test-KeepsIdle quiet)

uefi_main-runs_example :
    Returns (λ _ h. runs h ≡ 3) (uefi_main (decompress_harness library) 0x1234 3 (live quiet) [])
uefi_main-runs_example =
    uefi_main-runs (decompress_harness library) quiet 0x1234 3 (decompress-Completes library quiet)
