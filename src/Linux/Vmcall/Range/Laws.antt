-- ===== src/Linux/Vmcall/Range/Laws.antt =====
-- The ranges that `cmd_hrange` submits.
use kafl_targets.Base.{
  inl, inr, if◌then◌else◌, ltb, leb, Option-cases, Bool-cases, ℕ, ◌+◌, ◌%◌, ◌^◌, ◌-◌, ◌≤◌, ◌<◌, ◌≡◌,
  ◌⊎◌, String, Option, some, List, [], ◌∷◌, arith,
}
use kafl_targets.Machine.{Env, History, vmcall, Ends, range_ptr, Ends-then, pure, ◌>>=◌, ◌>>◌}
use kafl_targets.Linux.Agent.Cpu.{
  hrange_submit, CpuType, nyx_cpu_v1, nyx_cpu_v2, nyx_cpu_none, nyx_cpu_invalid,
}
use kafl_targets.Linux.Agent.Cpu.Laws.{hypercall_before_detection}
use kafl_targets.Linux.Vmcall.Range.{einval, round_end, round_start, cmd_hrange}

-- The end of a range that is not behind the start of the address space's last page is rounded up to
-- a page boundary, by less than a page.
round_end_bounds :
    (e : ℕ)
    → e ≤ 2 ^ 64 - 0x1000
    → (e ≤ round_end e) × (round_end e < e + 0x1000) × (round_end e % 0x1000 ≡ 0)
unfolding round_end
round_end_bounds e fits = ground arith

round_start_bounds :
    (s : ℕ) → (round_start s ≤ s) × (s < round_start s + 0x1000) × (round_start s % 0x1000 ≡ 0)
unfolding round_start
round_start_bounds s = ground arith

-- The end of a range behind the start of the address space's last page is rounded to 0.
round_end_wraps : (e : ℕ) → 2 ^ 64 - 0x1000 < e → e < 2 ^ 64 → round_end e ≡ 0
unfolding round_end
round_end_wraps e last word = ground arith

-- A range that the tool may submit.
abbrev IsSound : ℕ → ℕ → ℕ → Type 0
IsSound start end id =
    (id ≤ 3) × (start % 0x1000 ≡ 0) × (end % 0x1000 ≡ 0) × ((start < end) ⊎ (end ≡ 0))

abbrev pub RangesSound : History → Type 0
RangesSound [] = Unit
RangesSound (vmcall id (range_ptr start end range_id) ∷ h) =
    IsSound start end range_id × RangesSound h
RangesSound (_ ∷ h) = RangesSound h

submitted_IsSound :
    (id start end : ℕ)
    → id ≤ 3
    → start < end
    → end < 2 ^ 64
    → IsSound (round_start start) (round_end end) id
unfolding round_start round_end
submitted_IsSound id start end known order word = ground arith

-- What `sscanf` delivers fits `uint64_t`.
abbrev ScansWords : (String → Option (ℕ × ℕ × ℕ)) → Type 0
ScansWords scan_range =
    (arg : String) (id start end : ℕ) → scan_range arg ≡ some (id, start, end) → end < 2 ^ 64

module _ (scan_range : String → Option (ℕ × ℕ × ℕ)) (depth : ℕ) (words : ScansWords scan_range)
    (env : Env) where
  submit_sound :
      (cpu : CpuType) (id start end : ℕ) (h : History)
      → IsSound start end id
      → RangesSound h
      → Ends RangesSound (hrange_submit depth cpu id start end env h)
  unfolding hrange_submit
  submit_sound nyx_cpu_v1 id start end h sound ok = ground arith
  submit_sound nyx_cpu_v2 id start end h sound ok = ok
  submit_sound nyx_cpu_none id start end h sound ok = ok
  submit_sound nyx_cpu_invalid id start end h sound ok =
      rw (hypercall_before_detection depth, ◌>>=◌) ok

  -- Where `sscanf` delivers words of 64 bits: from a history with this property, every range that
  -- `cmd_hrange` submits, for any arguments and wherever it is cut off, has an id of at most 3 and
  -- page-aligned bounds, and its start lies before its end unless the end has wrapped around to 0.
  pub cmd_hrange-RangesSound :
      (cpu : CpuType) (args : List String) (h : History)
      → RangesSound h
      → Ends RangesSound (cmd_hrange scan_range depth cpu args env h)
  unfolding cmd_hrange
  cmd_hrange-RangesSound cpu [] h ok = ok
  cmd_hrange-RangesSound cpu (arg ∷ args) h ok = elim (Option-cases (scan_range arg)) [
    | inl bad ↦ rw (bad, cmd_hrange) ok
    | inr ((id, start, end), e) ↦
        rw (e, cmd_hrange) (checked id start end e (cmd_hrange-RangesSound cpu args))
  ]
    where
      checked :
          (id start end : ℕ)
          → scan_range arg ≡ some (id, start, end)
          → ((h' : History)
              → RangesSound h'
              → Ends RangesSound (cmd_hrange scan_range depth cpu args env h'))
          → Ends RangesSound (
              (if ltb 3 id
                  then pure einval
                  else if leb end start
                  then pure einval
                  else hrange_submit depth cpu id (round_start start) (round_end end)
                    >> cmd_hrange scan_range depth cpu args)
                env h)
      checked id start end e rest = elim (Bool-cases (ltb 3 id)) [
        | inl unknown ↦ rw unknown ok
        | inr known ↦ rw known (elim (Bool-cases (leb end start)) [
          | inl empty ↦ rw empty ok
          | inr order ↦ rw order (
              Ends-then RangesSound (hrange_submit depth cpu id (round_start start) (round_end end))
                (cmd_hrange scan_range depth cpu args) env h
                (submit_sound cpu id _ _ h
                  (submitted_IsSound id start end (ground arith) (ground arith)
                    (words arg id start end e))
                  ok)
                rest)
        ])
      ]
