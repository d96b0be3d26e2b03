-- ===== src/Linux/Agent/Transfer/Silent.antt =====
-- Files where hypercalls are skipped: fetching and printing them reaches no host.
use kafl_targets.Base.{ℕ, zero, suc, ◌+◌, ◌%◌, ◌^◌, ◌≡◌, String, [], ◌∷◌, arith}
use kafl_targets.Base.Int.{ℤ}
use kafl_targets.Machine.{Env, History, Arg, vmcall, call, num, Ends, Ends-bind, pure}
use kafl_targets.Linux.Agent.Cpu.{CpuType, hypercall}
use kafl_targets.Linux.Agent.Pages.{malloc_resident_pages}
use kafl_targets.Nyx.{hprintf_max_size}
use kafl_targets.Linux.Agent.Transfer.{
  print_loop, hprintf_from_file, get_loop, hget_into, hget_file, num_pages,
}

-- No hypercall has been placed.
abbrev pub Silent : History → Type 0
Silent [] = Unit
Silent (vmcall id arg ∷ h) = ⊥
Silent (_ ∷ h) = Silent h

malloc-Silent :
    (n : ℕ) (env : Env) (h : History) → Silent h → Ends Silent (malloc_resident_pages n env h)
unfolding malloc_resident_pages
malloc-Silent n env h quiet = ground arith

module _ (depth : ℕ) (cpu : CpuType)
    (skips : (id : ℕ) (arg : Arg) → hypercall depth cpu id arg ≡ pure 0) (env : Env) where
  print_loop-Silent :
      (fuel f written : ℕ) (h : History)
      → Silent h
      → Ends Silent (print_loop depth cpu fuel f written env h)
  unfolding print_loop
  print_loop-Silent zero f written h quiet = quiet
  print_loop-Silent (suc fuel) f written h quiet =
      let h1 = call "feof" (num f ∷ []) ∷ h in
      let fread = call "fread" (num 1 ∷ num hprintf_max_size ∷ num f ∷ []) in
      let h3 = call "ferror" (num f ∷ []) ∷ fread ∷ h1 in
      rw skips (ground (arith, print_loop-Silent fuel f ((written + env.rax h1 fread) % 2 ^ 64) h3))

  pub hprintf_from_file-Silent :
      (fuel f : ℕ) (h : History) → Silent h → Ends Silent (hprintf_from_file depth cpu fuel f env h)
  unfolding hprintf_from_file
  hprintf_from_file-Silent fuel f h quiet = print_loop-Silent fuel f 0 h quiet

  get_loop-Silent :
      (fuel : ℕ) (name : String) (buf : ℕ) (fd : ℤ) (h : History)
      → Silent h
      → Ends Silent (get_loop depth cpu fuel name buf fd env h)
  unfolding get_loop
  get_loop-Silent zero name buf fd h quiet = quiet
  get_loop-Silent (suc fuel) name buf fd h quiet =
      rw skips (ground (arith, get_loop-Silent fuel name buf fd))

  hget_into-Silent :
      (basename : String → String) (fuel : ℕ) (name : String) (flags buf : ℕ) (h : History)
      → Silent h
      → Ends Silent (hget_into depth cpu basename fuel name flags buf env h)
  unfolding hget_into
  hget_into-Silent basename fuel name flags buf h quiet =
      grind (arith, get_loop-Silent fuel name buf)

  pub hget_file-Silent :
      (basename : String → String) (fuel : ℕ) (name : String) (flags : ℕ) (h : History)
      → Silent h
      → Ends Silent (hget_file depth cpu basename fuel name flags env h)
  unfolding hget_file
  hget_file-Silent basename fuel name flags h quiet =
      Ends-bind Silent (malloc_resident_pages num_pages)
        (hget_into depth cpu basename fuel name flags) env h (malloc-Silent num_pages env h quiet)
        (hget_into-Silent basename fuel name flags)
