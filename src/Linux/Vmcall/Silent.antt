-- ===== src/Linux/Vmcall/Silent.antt =====
-- Which hypercalls the tool places on a CPU whose hypercalls are skipped.
use package.text.Mathlib.Text.{starts_with}
use kafl_targets.Base.{
  ℕ, ◌≡◌, ◌≢◌, refl, Bool, Bool-cases, Option-cases, true, false, String, Option, none, some, List,
  [], ◌∷◌, arith, inl, inr, if◌then◌else◌, ltb, leb,
}
use kafl_targets.Base.Int.{pos}
use kafl_targets.Machine.{done, M, Env, History, Arg, Ends, Ends-bind, Ends-then, pure}
use kafl_targets.Linux.Agent.Cpu.{
  codes, CpuType, nyx_cpu_v1, nyx_cpu_v2, nyx_cpu_none, nyx_cpu_invalid, hypercall, habort_msg,
  hrange_submit, detect_cpu_type, get_nyx_cpu_type,
}
use kafl_targets.Linux.Agent.Cpu.Laws.{c_string, detect_cpu_type_iff}
use kafl_targets.Linux.Agent.Host.{check_host_magic}
use kafl_targets.Linux.Agent.Transfer.Silent.{Silent, hprintf_from_file-Silent, hget_file-Silent}
use kafl_targets.Linux.Vmcall.Range.{cmd_hrange}
use kafl_targets.Linux.Vmcall.{
  Library, hcat_files, cmd_hcat, hget_files, hget_operands, enter_root, cmd_hget, cmd_check,
  cmd_habort, cmd_hpanic, cmd_hlock, cmd_dispatch, vmcall_main, is_einval,
}

-- The command that the tool dispatches, behind any words `vmcall`, is not `hpush`.
abbrev pub IsNoPush : (String → String) → List String → Type 0
IsNoPush basename [] = Unit
IsNoPush basename (word ∷ words) =
    if starts_with (basename word) "vmcall"
    then IsNoPush basename words
    else starts_with (basename word) "hpush" ≡ false

-- What is checked is then the host configuration of the guest itself.
module _ (depth : ℕ) (env : Env) where
  check_host_magic-Silent :
      (cpu : CpuType)
      → cpu ≢ nyx_cpu_v1
      → ((id : ℕ) (arg : Arg) → hypercall depth cpu id arg ≡ pure 0)
      → (h : History) → Silent h
      → Ends Silent (check_host_magic depth cpu env h)
  unfolding check_host_magic
  check_host_magic-Silent nyx_cpu_invalid other skips h quiet = rw skips quiet
  check_host_magic-Silent nyx_cpu_none other skips h quiet = quiet
  check_host_magic-Silent nyx_cpu_v1 other skips h quiet = absurd (other refl)
  check_host_magic-Silent nyx_cpu_v2 other skips h quiet = quiet

  cmd_check-Silent :
      (lib : Library) (fuel : ℕ) (cpu : CpuType)
      → cpu ≢ nyx_cpu_v1
      → ((id : ℕ) (arg : Arg) → hypercall depth cpu id arg ≡ pure 0)
      → (args : List String) (h : History) → Silent h
      → Ends Silent (cmd_check lib depth fuel cpu args env h)
  unfolding cmd_check habort_msg
  cmd_check-Silent lib fuel nyx_cpu_invalid other skips args h quiet = quiet
  cmd_check-Silent lib fuel nyx_cpu_none other skips args h quiet = quiet
  cmd_check-Silent lib fuel nyx_cpu_v1 other skips args h quiet = absurd (other refl)
  cmd_check-Silent lib fuel nyx_cpu_v2 other skips args h quiet =
      grind (arith, check_host_magic-Silent nyx_cpu_v2 other skips)

module _ (lib : Library) (depth fuel : ℕ) (cpu : CpuType) (other : cpu ≢ nyx_cpu_v1)
    (skips : (id : ℕ) (arg : Arg) → hypercall depth cpu id arg ≡ pure 0) (env : Env) where
  -- A part of the tool places no hypercall.
  abbrev IsSilent : {A : Type 0} → M A → Type 0
  IsSilent m = (h : History) → Silent h → Ends Silent (m env h)

  hcat_files-Silent :
      (names : List String) (written : ℕ) → IsSilent (hcat_files lib depth fuel cpu names written)
  unfolding hcat_files
  hcat_files-Silent [] written h quiet = quiet
  hcat_files-Silent (name ∷ names) written h quiet =
      grind (arith, hprintf_from_file-Silent depth cpu skips env fuel, hcat_files-Silent names)

  cmd_hcat-Silent : (args : List String) → IsSilent (cmd_hcat lib depth fuel cpu args)
  unfolding cmd_hcat
  cmd_hcat-Silent args h quiet =
      grind (arith, hprintf_from_file-Silent depth cpu skips env fuel, hcat_files-Silent args)

  cmd_habort-Silent : (args : List String) → IsSilent (cmd_habort lib depth fuel cpu args)
  unfolding cmd_habort habort_msg
  cmd_habort-Silent [] h quiet = rw skips quiet
  cmd_habort-Silent (msg ∷ more) h quiet = rw skips quiet

  cmd_hpanic-Silent : (args : List String) → IsSilent (cmd_hpanic lib depth fuel cpu args)
  unfolding cmd_hpanic
  cmd_hpanic-Silent [] h quiet = rw skips quiet
  cmd_hpanic-Silent (msg ∷ more) h quiet = rw skips quiet

  cmd_hlock-Silent : IsSilent (cmd_hlock lib depth fuel cpu)
  unfolding cmd_hlock
  cmd_hlock-Silent h quiet = rw skips quiet

  hget_files-Silent :
      (fmode : ℕ) (names : List String) → IsSilent (hget_files lib depth fuel cpu fmode names)
  unfolding hget_files
  hget_files-Silent fmode [] h quiet = quiet
  hget_files-Silent fmode (name ∷ names) h quiet = grind (
    arith,
    hget_file-Silent depth cpu skips env lib.basename fuel name fmode,
    hget_files-Silent fmode names,
  )

  hget_operands-Silent :
      (fmode : ℕ) (root : Option String) (names : List String)
      → IsSilent (hget_operands lib depth fuel cpu fmode root names)
  unfolding hget_operands enter_root
  hget_operands-Silent fmode root [] h quiet = quiet
  hget_operands-Silent fmode none (name ∷ names) h quiet =
      hget_files-Silent fmode (name ∷ names) h quiet
  hget_operands-Silent fmode (some root) (name ∷ names) h quiet =
      grind (arith, hget_files-Silent fmode (name ∷ names))

  cmd_hget-Silent : (args : List String) → IsSilent (cmd_hget lib depth fuel cpu args)
  unfolding cmd_hget
  cmd_hget-Silent args h quiet = grind (arith, hget_operands-Silent)

  hrange_submit_skipped :
      (id start end : ℕ) (h : History) → hrange_submit depth cpu id start end env h ≡ done tt h
  unfolding hrange_submit
  hrange_submit_skipped id start end h = rw skips refl

  Silent-if :
      {A : Type 0} (b : Bool) (m k : M A) → IsSilent m → IsSilent k → IsSilent (if b then m else k)
  Silent-if true m k here later = here
  Silent-if false m k here later = later

  cmd_hrange-Silent : (args : List String) → IsSilent (cmd_hrange lib.scan_range depth cpu args)
  unfolding cmd_hrange
  cmd_hrange-Silent [] h quiet = quiet
  cmd_hrange-Silent (arg ∷ args) h quiet = elim (Option-cases (lib.scan_range arg)) [
    | inl bad ↦ rw (bad, cmd_hrange) quiet
    | inr ((id, start, end), e) ↦
        rw (e, cmd_hrange)
          (Silent-if (ltb 3 id) _ _ (λ h q. q)
            (Silent-if (leb end start) _ _ (λ h q. q)
              (λ h q.
                Ends-then Silent (hrange_submit depth cpu id _ _)
                  (cmd_hrange lib.scan_range depth cpu args) env h (rw hrange_submit_skipped q)
                  (cmd_hrange-Silent args)))
            h quiet)
  ]

  cmd_dispatch-Silent :
      (args : List String)
      → IsNoPush lib.basename args
      → IsSilent (cmd_dispatch lib depth fuel cpu args)
  unfolding cmd_dispatch
  cmd_dispatch-Silent [] no_push h quiet = quiet
  cmd_dispatch-Silent (arg ∷ args) no_push h quiet =
      let name = lib.basename arg in
      elim (Bool-cases (starts_with name "vmcall")) [
        | inl nested ↦ rw nested (
            Ends-bind Silent (cmd_dispatch lib depth fuel cpu args)
              (λ ret. pure (if is_einval ret then pos 0 else ret)) env h
              (cmd_dispatch-Silent args (rw nested at no_push) h quiet) (λ ret h' q. q))
        | inr command ↦
            rw (command, (rw command at no_push))
              (Silent-if (starts_with name "hcat") _ _ (cmd_hcat-Silent args)
                (Silent-if (starts_with name "habort") _ _ (cmd_habort-Silent args) (
                  Silent-if (starts_with name "hget") _ _ (cmd_hget-Silent args) (
                    Silent-if (starts_with name "hpanic") _ _ (cmd_hpanic-Silent args) (
                      Silent-if (starts_with name "hrange") _ _ (cmd_hrange-Silent args) (
                        Silent-if (starts_with name "hlock") _ _ cmd_hlock-Silent (
                          Silent-if (starts_with name "check") _ _
                            (cmd_check-Silent depth env lib fuel cpu other skips args)
                            (λ h q. q)))))))
                h quiet)
      ]

skipped :
    (depth : ℕ) (cpu : CpuType)
    → cpu ≢ nyx_cpu_v1
    → cpu ≢ nyx_cpu_invalid
    → (id : ℕ) (arg : Arg) → hypercall depth cpu id arg ≡ pure 0
unfolding hypercall
skipped depth nyx_cpu_invalid other valid id arg = absurd (valid refl)
skipped depth nyx_cpu_none other valid id arg = refl
skipped depth nyx_cpu_v1 other valid id arg = absurd (other refl)
skipped depth nyx_cpu_v2 other valid id arg = refl

-- Where CPUID does not spell the name of the version 1 CPU, the tool places no hypercall, whatever
-- its arguments and wherever it is cut off, unless the command that they name is `hpush`, which does
-- not look at the type of the CPU.
pub vmcall_main-Silent :
    (lib : Library) (depth fuel : ℕ) (regs : List ℕ) (argv : List String) (env : Env)
    → c_string regs ≢ codes "NYX vCPU (PT)"
    → IsNoPush lib.basename argv
    → Ends Silent (vmcall_main lib depth fuel regs argv env [])
unfolding vmcall_main get_nyx_cpu_type
vmcall_main-Silent lib depth fuel regs argv env unnamed no_push =
    let detected = detect_cpu_type_iff regs in
    let other : detect_cpu_type regs ≢ nyx_cpu_v1 = (λ e. unnamed (detected.0.0 e)) in
    cmd_dispatch-Silent lib depth fuel (detect_cpu_type regs) other
      (skipped depth (detect_cpu_type regs) other detected.2) env argv no_push [] tt
