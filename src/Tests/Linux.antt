-- ===== src/Tests/Linux.antt =====
-- The tools and agents of the Linux user space.
use kafl_targets.Base.{
  List, ℕ, String, ◌≡◌, ◌≢◌, ◌↔◌, true, false, refl, some, [], ◌∷◌, Option, arith,
}
use kafl_targets.Machine.{crashing, ◌>>◌, After, Ends, Returns, OnFuel}
use kafl_targets.Linux.Agent.Cpu.{nyx_cpu_v1, nyx_cpu_v2, nyx_cpu_invalid, codes, detect_cpu_type}
use kafl_targets.Linux.Agent.Cpu.Laws.{c_string, detect_cpu_type_iff}
use kafl_targets.Linux.Agent.Transfer.{hget_file}
use kafl_targets.Linux.Agent.Transfer.Get.{hget_file-ends}
use kafl_targets.Linux.Vmcall.Range.{cmd_hrange}
use kafl_targets.Linux.Vmcall.Range.Laws.{RangesSound, cmd_hrange-RangesSound}
use kafl_targets.Linux.Forkserver.{prepare, range_loop}
use kafl_targets.Linux.Forkserver.Round.{WaitStatus, asan_exit_code, sigvtalrm}
use kafl_targets.Linux.Forkserver.Laws.{range_loop-Numbered, Numbered, ranges}
use kafl_targets.Linux.Forkserver.Reports.{Adds, machine_rounds-Adds}
use kafl_targets.Linux.Forkserver.Machine.{Ending, machine_rounds, machine_rounds-InOrder}
use kafl_targets.Cycle.{phase, idle, InOrder}
use kafl_targets.Tests.Samples.{quiet}

abbrev same_name : String → String
same_name s = s

hget_file-ends_example : OnFuel (λ _. ⊥) (hget_file 2 nyx_cpu_v1 same_name 2 "file" 0o775 quiet [])
hget_file-ends_example =
    hget_file-ends 2 same_name "file" 0o775 quiet nyx_cpu_v1 1 2 [] (λ h e le. ground arith)
      (omega arith) refl

detect_cpu_type_iff_example :
    ((detect_cpu_type (codes "NYX vCPU (PT)") ≡ nyx_cpu_v1)
      ↔ (c_string (codes "NYX vCPU (PT)") ≡ codes "NYX vCPU (PT)"))
    × ((detect_cpu_type (codes "NYX vCPU (PT)") ≡ nyx_cpu_v2)
        ↔ (c_string (codes "NYX vCPU (PT)") ≡ codes "NYX vCPU (NO-PT)"))
    × (detect_cpu_type (codes "NYX vCPU (PT)") ≢ nyx_cpu_invalid)
detect_cpu_type_iff_example = detect_cpu_type_iff (codes "NYX vCPU (PT)")

abbrev scan_range : String → Option (ℕ × ℕ × ℕ)
scan_range s = some (1, 0x1234, 0x5678)

cmd_hrange-RangesSound_example :
    Ends RangesSound (cmd_hrange scan_range 1 nyx_cpu_v1 ("1,1234-5678" ∷ []) quiet [])
cmd_hrange-RangesSound_example =
    cmd_hrange-RangesSound scan_range 1 (λ arg id start end e. ground arith) quiet nyx_cpu_v1
      ("1,1234-5678" ∷ []) [] tt

abbrev crashed : WaitStatus
crashed = record { wifsignaled = true; wtermsig = 11; wexitstatus = 0 }

abbrev timed_out : WaitStatus
timed_out = record { wifsignaled = true; wtermsig = sigvtalrm; wexitstatus = 0 }

abbrev sanitized : WaitStatus
sanitized = record { wifsignaled = false; wtermsig = 0; wexitstatus = asan_exit_code }

abbrev sane : WaitStatus
sane = record { wifsignaled = false; wtermsig = 0; wexitstatus = 0 }

-- A child that runs no exit handler.
abbrev ended : WaitStatus → Ending
ended status = record { status = status; exits = false }

-- One child crashes, one runs out of time, one is stopped by the sanitizer, and one exits.
abbrev children : List Ending
children =
    ended crashed ∷ ended timed_out ∷ ended sanitized ∷ record { status = sane; exits = true } ∷ []

machine_rounds-Adds_example :
    Returns (λ _. Adds 4 1 1 []) (machine_rounds 1 nyx_cpu_v1 true 41 children (crashing quiet) [])
machine_rounds-Adds_example = machine_rounds-Adds 1 true 41 quiet children []

abbrev map_line : String → Option (ℕ × ℕ × String)
map_line s = some (0x1000, 0x2000, s)

range_loop-Numbered_example :
    After
      (λ n h. Numbered h × (n ≡ ranges h))
      Numbered
      (range_loop 1 nyx_cpu_v1 map_line (λ _. true) ("a.so" ∷ "b.so" ∷ []) 0 quiet [])
range_loop-Numbered_example =
    range_loop-Numbered 1 map_line (λ _. true) quiet ("a.so" ∷ "b.so" ∷ []) 0 [] tt refl

machine_rounds-InOrder_example :
    After
      (λ _ h. phase h ≡ some idle)
      InOrder
      ((prepare 1 nyx_cpu_v1 map_line (λ _. true) ("a.so" ∷ []) true
          >> machine_rounds 1 nyx_cpu_v1 true 41 (ended crashed ∷ ended crashed ∷ []))
        (crashing quiet)
        [])
machine_rounds-InOrder_example =
    machine_rounds-InOrder 1 true 41 quiet map_line (λ _. true) ("a.so" ∷ [])
      (ended crashed ∷ ended crashed ∷ []) (refl, (refl, tt))
