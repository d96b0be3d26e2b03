-- ===== src/Tests/Drivers.antt =====
-- The kernel fuzzing agent of Windows, on a system with two drivers.
use package.text.Mathlib.Text.{◌==◌ as str_eq}
use kafl_targets.Base.{ℕ, ◌≡◌, true, false, some, [], ◌∷◌, List, refl, arith, if◌then◌else◌}
use kafl_targets.Base.Int.{ℤ, pos}
use kafl_targets.Machine.{Env, Event, vmcall, call, target, After, Returns, NoBadAccess, live}
use kafl_targets.Cycle.{phase, idle, InOrder}
use kafl_targets.Windows.Drivers.{Module, init_panic_handlers, set_ip_range}
use kafl_targets.Windows.Drivers.Bounds.{set_ip_range-NoBadAccess}
use kafl_targets.Windows.Drivers.Addresses.{panics, init_panic_handlers-relocated}
use kafl_targets.Windows.Agent.{agent_main}
use kafl_targets.Windows.Agent.Laws.{agent_main-InOrder}
use kafl_targets.Tests.Samples.{quiet}

abbrev kernel : Module
kernel = record {
  base = 0xfff0_0000;
  image_size = 0x100;
  file_name = "ntoskrnl.exe";
  is_target = false;
}

abbrev under_test : Module
under_test = record {
  base = 0x8000;
  image_size = 0x1000;
  file_name = "kAFLvulnerabledriver.sys";
  is_target = true;
}

abbrev drivers : List Module
drivers = kernel ∷ under_test ∷ []

-- What the library of the system returns: the kernel's image is at 0x4000.
abbrev address : Event → ℕ
address (call name args) =
    if str_eq name "LoadLibraryA"
    then 0x4000
    else if str_eq name "GetProcAddress"
    then 0x4500
    else 100
address (vmcall id a) = 0
address (target p) = 0

-- The names of the drivers may be kept secret.
abbrev tells : ℕ → Event → ℤ
tells named (call name args) = if str_eq name "GetDeviceDriverFileName" then pos named else pos 1
tells named (vmcall id a) = pos 0
tells named (target p) = pos 0

abbrev windows : ℕ → Env
windows named = record quiet { rax = λ h e. address e; result = λ h e. tells named e }

init_panic_handlers-relocated_example :
    Returns
      (λ _ h. panics h ≡ 0xfff0_0500 ∷ 0xfff0_0500 ∷ [])
      (init_panic_handlers true drivers (live (windows 12)) [])
init_panic_handlers-relocated_example =
    init_panic_handlers-relocated kernel (under_test ∷ []) 0x4000 (λ f. 0x500) (windows 12) []
      (λ h. refl) (λ h. refl) (record { loaded = λ h. refl; exported = λ h f. refl })
      (λ f. omega arith) (λ f. omega arith) (omega arith)

set_ip_range-NoBadAccess_example : NoBadAccess (set_ip_range true drivers (windows 12) [])
set_ip_range-NoBadAccess_example =
    set_ip_range-NoBadAccess 127 (windows 12) true drivers [] (λ h f a. ground arith) (omega arith)

agent_main-InOrder_example :
    After (λ _ h. phase h ≡ some idle) InOrder (agent_main true drivers (windows 12) [])
agent_main-InOrder_example = agent_main-InOrder true drivers (windows 12)
