-- ===== src/Linux/Vmcall/Files.antt =====
-- The tool's `hpush` and `hget` of one file.
use kafl_targets.Base.{◌≡◌, String, [], ◌∷◌}
use kafl_targets.Linux.Vmcall.{Library}

-- A word that `getopt` takes for an operand.
abbrev pub IsOperand : Library → String → Type 0
IsOperand lib w =
    (options : String) → lib.getopt options (w ∷ []) ≡ record { options = []; operands = w ∷ [] }

-- `basename` leaves a command as it is.
abbrev pub KeepsCommands : Library → Type 0
KeepsCommands lib = (lib.basename "hpush" ≡ "hpush") × (lib.basename "hget" ≡ "hget")
