-- ===== src/Tests/Windows.antt =====
-- The programs of the Windows user space, on an address space of two regions.
use kafl_targets.Base.{ℕ, ◌≡◌, refl, true, some, [], ◌∷◌, arith}
use kafl_targets.Nyx.{Range}
use kafl_targets.Machine.{Env, After, Returns, History, live}
use kafl_targets.Buffer.{codes}
use kafl_targets.Cycle.{phase, idle, InOrder, runs}
use kafl_targets.Windows.Regions.{System, execute_read, drop_va}
use kafl_targets.Windows.Regions.Laws.{Covers, drop_va-Returns}
use kafl_targets.Windows.Image.{image_main}
use kafl_targets.Windows.Image.Laws.{image_main-InOrder}
use kafl_targets.Windows.Image.Runs.{image_main-runs}
use kafl_targets.Windows.Font.{font_main, font_round}
use kafl_targets.Windows.Font.Laws.{Deleted, font_main-InOrder, font_round-Deleted}
use kafl_targets.Windows.SelfFuzz.Main.{Section, selffuzz_main}
use kafl_targets.Windows.SelfFuzz.Main.Laws.{ranges as traced, selffuzz_main-InOrder}
use kafl_targets.Tests.Samples.{quiet}

abbrev paged : System
paged = record {
  minimum = 0;
  maximum = 0x2000;
  query = λ h a. some (record { is_image = true; region_size = 0x1000; protect = execute_read });
  module_info = λ h. record { base_of_dll = 0x1000; size_of_image = 0x1000; filename = "a.dll" };
}

paged-Covers : Covers paged
paged-Covers h a below = (_, refl, omega arith, omega arith)

drop_va-Returns_example : Returns (λ _ h. runs h ≡ 0) (drop_va paged 0x2001 (live quiet) [])
drop_va-Returns_example =
    drop_va-Returns paged quiet 0x2001 0 [] paged-Covers (omega arith) (omega arith) refl

abbrev ranges : History → ℕ → Range
ranges h i = record { ip = 0x1000; size = 0x1000; enabled = 1 }

image_main-InOrder_example :
    After (λ _ h. phase h ≡ some idle) InOrder (image_main paged ranges 0x20000 3 2 quiet [])
image_main-InOrder_example = image_main-InOrder paged quiet ranges 0x20000 3 2

abbrev short : Env
short = record quiet { rax = λ h e. 100 }

image_main-runs_example :
    Returns (λ _ h. runs h ≡ 2) (image_main paged ranges 0x20000 0x2001 2 (live short) [])
image_main-runs_example =
    image_main-runs short (record { short_path = λ h. omega arith; loads = λ h w. ground arith })
      paged paged-Covers ranges 0x20000 0x2001 2 (omega arith) (omega arith)

font_main-InOrder_example :
    After (λ _ h. phase h ≡ some idle) InOrder (font_main paged ranges 0x20000 3 2 quiet [])
font_main-InOrder_example = font_main-InOrder paged ranges 0x20000 3 2 quiet

font_round-Deleted_example : After (λ _. Deleted) (λ _. Unit {0}) (font_round quiet [])
font_round-Deleted_example = font_round-Deleted quiet [] (refl, refl, refl)

abbrev data_section : Section
data_section = record { name = codes ".data"; virtual_address = 0x1000; virtual_size = 0x800 }

abbrev text_section : Section
text_section = record { name = codes ".text$x"; virtual_address = 0x2000; virtual_size = 0x900 }

selffuzz_main-InOrder_example :
    After
      (λ _ h. phase h ≡ some idle)
      InOrder
      (selffuzz_main true (data_section ∷ text_section ∷ []) quiet [])
selffuzz_main-InOrder_example = selffuzz_main-InOrder true (data_section ∷ text_section ∷ []) quiet
