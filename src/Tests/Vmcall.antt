-- ===== src/Tests/Vmcall.antt =====
-- The tool vmcall: on a CPU that is skipped, and one run after the other.
use kafl_targets.Base.{refl, some, [], ◌∷◌, arith}
use kafl_targets.Machine.{Ends}
use kafl_targets.Linux.Agent.Cpu.{codes}
use kafl_targets.Linux.Agent.Transfer.Silent.{Silent}
use kafl_targets.Linux.Vmcall.{Library, vmcall_main}
use kafl_targets.Linux.Vmcall.Silent.{vmcall_main-Silent}
use kafl_targets.Tests.Samples.{quiet}

-- Without options, and in the directory of the files.
abbrev plain : Library
plain = record {
  getopt = λ options args. record { options = []; operands = args };
  basename = λ name. name;
  scan_range = λ arg. some (1, 0x1000, 0x2000);
}

vmcall_main-Silent_example :
    Ends Silent
      (vmcall_main plain 1 5 (codes "NYX vCPU (NO-PT)") ("vmcall" ∷ "hget" ∷ "file" ∷ []) quiet [])
vmcall_main-Silent_example =
    vmcall_main-Silent plain 1 5 (codes "NYX vCPU (NO-PT)") ("vmcall" ∷ "hget" ∷ "file" ∷ []) quiet
      (λ e. ground arith) refl
