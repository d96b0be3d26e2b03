-- ===== src/Linux/Forkserver/Hook.antt =====
-- How the fork server gets into a program (forkserver/src/forkserver.c): it is preloaded, and its own
-- `__libc_start_main` hides the C library's.
use kafl_targets.Base.{ℕ, ⊤, Bool, String, Option, List, [], ◌∷◌, ◌==◌, if◌then◌else◌}
use kafl_targets.Machine.{M, stop, bad_access, ◌>>=◌, libcall_word, str}
use kafl_targets.Linux.Agent.Cpu.{CpuType}
use kafl_targets.Linux.Forkserver.Round.{WaitStatus}
use kafl_targets.Linux.Forkserver.{forkserver}

-- `__libc_start_main`. `orig` is the C library's function of this name, on the `main` that it is
-- given: `forkserver`, which has the program's own `main` as its target.
libc_start_main :
    (M ⊤ → M ⊤)
    → ℕ
    → CpuType
    → (String → Option (ℕ × ℕ × String))
    → (String → Bool)
    → List String
    → Bool
    → (ℕ → WaitStatus)
    → ℕ
    → M ⊤
unfolding libcall_word
libc_start_main orig depth cpu scan matches lines stdin_mode wait n = do
  address ← libcall_word "dlsym" (str "__libc_start_main" ∷ [])
  if address == 0
      then stop bad_access
      else orig (forkserver depth cpu scan matches lines stdin_mode wait n)
