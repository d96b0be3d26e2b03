-- ===== src/Tests/Standalone.antt =====
-- The programs that fuzz fonts, with a file of a hundred bytes.
use package.text.Mathlib.Text.{◌==◌ as str_eq}
use kafl_targets.Base.{
  ℕ, ◌-◌, ◌≤◌, ◌≡◌, ◌↔◌, ltb, true, some, [], ◌∷◌, List, refl, arith, if◌then◌else◌,
}
use kafl_targets.Base.Int.{pos}
use kafl_targets.Machine.{Env, Event, Val, num, vmcall, call, target, Returns, NoBadAccess, live}
use kafl_targets.Cycle.{runs}
use kafl_targets.Windows.Regions.{System, execute_read}
use kafl_targets.Windows.Regions.Laws.{Covers}
use kafl_targets.Windows.Font.Runs.{Makes}
use kafl_targets.Windows.Standalone.{set_payload, font_standalone}
use kafl_targets.Windows.Standalone.Laws.{HoldsFile, set_payload_iff, font_standalone-runs}
use kafl_targets.Tests.Samples.{quiet}

abbrev paged : System
paged = record {
  minimum = 0;
  maximum = 0x2000;
  query = λ h a. some (record { is_image = true; region_size = 0x1000; protect = execute_read });
  module_info = λ h. record { base_of_dll = 0x1000; size_of_image = 0x1000; filename = "a.dll" };
}

paged-Covers : Covers paged
paged-Covers h a below = (_, refl, omega arith, omega arith)

abbrev asked : List Val → ℕ
asked (num n ∷ []) = n
asked _ = 0

-- What a call returns: a read, as many bytes as the file has and the caller asks for.
abbrev words : Event → ℕ
words (call name args) =
    if str_eq name "ReadFile" then (if ltb 100 (asked args) then 100 else asked args) else 100
words (vmcall id a) = 0
words (target p) = 0

abbrev windows : Env
windows = record quiet { rax = λ h e. words e; result = λ h e. pos 1 }

windows-HoldsFile : HoldsFile windows "font.ttf" 100
windows-HoldsFile = record {
  opened = λ h. omega arith;
  sized = λ h n. refl;
  succeeds = λ h n. refl;
  reads = λ h n. refl;
}

windows-Makes : Makes windows
windows-Makes = record {
  fonts = λ h. omega arith;
  families = λ h. omega arith;
  font = λ h n. omega arith;
  graphics = λ h n. omega arith;
}

set_payload_iff_example : NoBadAccess (set_payload 64 "font.ttf" (live windows) []) ↔ (100 ≤ 64 - 4)
set_payload_iff_example =
    set_payload_iff windows "font.ttf" 100 64 [] windows-HoldsFile (omega arith)

font_standalone-runs_example :
    Returns
      (λ _ h. runs h ≡ 5)
      (font_standalone paged 0x20000 0x2001 ("font.ttf" ∷ []) (live windows) [])
font_standalone-runs_example =
    font_standalone-runs paged windows "font.ttf" 100 0x20000 0x2001 paged-Covers windows-Makes
      windows-HoldsFile (omega arith) (omega arith) (omega arith) (omega arith)
