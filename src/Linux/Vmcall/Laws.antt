-- ===== src/Linux/Vmcall/Laws.antt =====
-- The exit status of the tool.
use Prim.Native.String.{String}
use package.text.Mathlib.Text.{starts_with}
use kafl_targets.Base.{ℕ, ◌≡◌, ◌≢◌, true, List, [], ◌∷◌, arith, refl, if◌then◌else◌}
use kafl_targets.Base.Int.{ℤ, pos, negsuc}
use kafl_targets.Machine.{Env, History, After, After-bind, After-any, live, done, call, str, pure}
use kafl_targets.Linux.Agent.Cpu.{CpuType, nyx_cpu_v2}
use kafl_targets.Linux.Vmcall.Range.{einval}
use kafl_targets.Linux.Vmcall.{Library, is_einval, hcat_files, cmd_check, cmd_dispatch}

module _ (lib : Library) (depth fuel : ℕ) where
  -- Under a name that begins with `vmcall`, and whatever its arguments, the tool never returns
  -- -EINVAL: the usage errors of every subcommand end as success.
  cmd_dispatch-vmcall :
      (cpu : CpuType) (arg : String) (args : List String) (env : Env) (h : History)
      → starts_with (lib.basename arg) "vmcall" ≡ true
      → After
          (λ ret _. ret ≢ einval)
          (λ _. Unit {0})
          (cmd_dispatch lib depth fuel cpu (arg ∷ args) env h)
  unfolding cmd_dispatch
  cmd_dispatch-vmcall cpu arg args env h named = rw named (
      After-bind (λ _ _. Unit {0}) (λ ret _. ret ≢ einval) (λ _. Unit {0})
        (cmd_dispatch lib depth fuel cpu args) (λ ret. pure (if is_einval ret then pos 0 else ret))
        env h (After-any (cmd_dispatch lib depth fuel cpu args env h)) (λ ret h' _. translated ret))
    where
      translated : (ret : ℤ) → (if is_einval ret then pos 0 else ret) ≢ einval
      translated (pos n) = ground arith
      translated (negsuc n) = ground arith

  -- Where calls come back and nothing has been printed yet, a file that cannot be opened ends
  -- `hcat` with 0, which is success, and the files behind it are not opened.
  hcat_files_missing :
      (cpu : CpuType) (name : String) (more : List String) (env : Env) (h : History)
      → let fopen = call "fopen" (str name ∷ str "r" ∷ []) in
        env.rax h fopen ≡ 0
        → hcat_files lib depth fuel cpu (name ∷ more) 0 (live env) h ≡ done (pos 0) (fopen ∷ h)
  unfolding hcat_files
  hcat_files_missing cpu name more env h missing = ground arith

  -- On a version 2 CPU every hypercall is skipped, so `check` finds the host incompatible whatever
  -- the host is, and returns -2 without any call.
  cmd_check-v2 :
      (args : List String) (env : Env) (h : History)
      → cmd_check lib depth fuel nyx_cpu_v2 args env h ≡ done (negsuc 1) h
  unfolding cmd_check
  cmd_check-v2 args env h = refl
