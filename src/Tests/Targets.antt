-- ===== src/Tests/Targets.antt =====
-- The targets under test, on short inputs.
use package.text.Mathlib.Text.{◌==◌ as str_eq}
use kafl_targets.Base.{some, ◌+◌, ◌*◌, ◌≤◌, ◌==◌, if◌then◌else◌, ◌≡◌, refl, [], arith}
use kafl_targets.Base.Int.{ℤ, pos}
use kafl_targets.Machine.{Env, History, Event, vmcall, target, OnFuel, After, NoBadAccess, call}
use kafl_targets.Buffer.{codes}
use kafl_targets.Zephyr.Directory.{target_entry as list_disk}
use kafl_targets.Zephyr.Directory.Laws.{target_entry-balanced, open_dirs, mounts, reads}
use kafl_targets.Zephyr.Json.{description}
use kafl_targets.Zephyr.Json.Types.{slots, targets, described, documented, description-Typed}
use kafl_targets.Zephyr.Target.{target_entry}
use kafl_targets.Zephyr.Target.Laws.{target_entry-NoBadAccess}
use kafl_targets.Tests.Samples.{quiet}

target_entry-NoBadAccess_example : NoBadAccess (target_entry (codes "KASAN") 5 quiet [])
target_entry-NoBadAccess_example = target_entry-NoBadAccess (codes "KASAN") 5 quiet [] (omega arith)

-- A directory of one entry.
abbrev disk_answer : History → Event → ℤ
disk_answer h (call name args) =
    if str_eq name "fs_readdir"
    then pos 0
    else if str_eq name "entry.name[0]"
    then (if reads h == 1 then pos 65 else pos 0)
    else pos 0
disk_answer h (vmcall id a) = pos 0
disk_answer h (target p) = pos 0

abbrev disk : Env
disk = record quiet { result = disk_answer }

target_entry-balanced_example :
    OnFuel (λ _. ⊥) (list_disk 2 disk [])
    × After
        (λ _ h. (open_dirs disk h ≡ 0) × (mounts disk h ≡ 0))
        (λ _. Unit {0})
        (list_disk 2 disk [])
target_entry-balanced_example =
    target_entry-balanced disk 1 2 [] (λ h le. ground arith) (omega arith) refl

-- The last element of the first array, and the first of the second.
description-Typed_example :
    (slots (targets documented description) ≡ some described)
    × (24 + 4 * 16 ≤ 96 + 4 * 0)
    × (96 + 4 * 1 ≤ 152)
description-Typed_example =
    description-Typed documented 6 10 15 0 (record { begin = 24; size = 4; number = 16 })
      (record { begin = 96; size = 4; number = 10 }) (λ t. refl) refl refl (omega arith)
      (omega arith) (omega arith)
