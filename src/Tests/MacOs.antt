-- ===== src/Tests/MacOs.antt =====
-- The programs of the macOS user space.
use kafl_targets.Base.{ℕ, String, ◌≡◌, refl, true, some, [], ◌∷◌, arith}
use kafl_targets.Machine.{Env, After, NoBadAccess, crashing}
use kafl_targets.Cycle.{phase, idle, InOrder}
use kafl_targets.MacOs.Fuzzer.Machine.{machine, machine-InOrder}
use kafl_targets.MacOs.Info.{info_main}
use kafl_targets.MacOs.Info.Parts.{Serves}
use kafl_targets.MacOs.Info.Bounds.{Answers, info_main-NoBadAccess}
use kafl_targets.MacOs.Kexts.{Token, Line, Commands}
use kafl_targets.Tests.Samples.{quiet}

machine-InOrder_example :
    After
      (λ _ h. phase h ≡ some idle)
      InOrder
      (machine "fuzzer" 0x400000 0x20000 41 3 2 (crashing quiet) [])
machine-InOrder_example = machine-InOrder "fuzzer" 0x400000 0x20000 41 quiet 3 2

abbrev token : String → ℕ → Token
token t n = record { text = t; value = n }

-- Each command prints one line, with no token.
abbrev one_line : Commands
one_line c = some (record { line = c; tokens = []; contains = λ w. true } ∷ [])

abbrev line : String → Line
line c = record { line = c; tokens = []; contains = λ w. true }

one_line-Answers :
    Answers one_line [] (line "csrutil status" ∷ []) (line "nvram -p | grep \"boot-args\"" ∷ [])
one_line-Answers = record {
  version = (_, _, refl);
  first = (_, _, refl);
  last = (_, _, refl);
  kextstat = (_, refl);
  csrutil = refl;
  nvram = refl;
  counts = tt;
}

abbrev hundred : Env
hundred = record quiet { rax = λ h e. 100 }

hundred-Serves : Serves hundred (λ n. n) 0x10000
hundred-Serves = record {
  fits = λ h name size le. refl;
  release_fits = omega arith;
  version_fits = omega arith;
  mapped = λ h. ground arith;
}

info_main-NoBadAccess_example : NoBadAccess (info_main 0x10000 one_line (λ n. n) hundred [])
info_main-NoBadAccess_example =
    info_main-NoBadAccess 100 0x10000 hundred one_line (λ n. n) [] (line "csrutil status" ∷ [])
      (line "nvram -p | grep \"boot-args\"" ∷ []) [] (λ h f a. omega arith) one_line-Answers
      hundred-Serves (omega arith)
