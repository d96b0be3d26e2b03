-- ===== src/Linux/Vmcall/Range.antt =====
-- `cmd_hrange`: trace ranges, checked and rounded to pages.
pub mod Laws
use Prim.Native.String.{String}
use kafl_targets.Base.{
  ℕ, ◌+◌, ◌*◌, ◌/◌, ◌%◌, ◌^◌, ◌-◌, leb, ltb, Option, none, some, List, [], ◌∷◌, ◌==◌, if◌then◌else◌,
}
use kafl_targets.Base.Int.{ℤ, pos, negsuc}
use kafl_targets.Machine.{M, pure, ◌>>◌}
use kafl_targets.Linux.Agent.Cpu.{CpuType, hrange_submit}
use kafl_targets.Linux.Agent.Pages.{page_size}

-- `-EINVAL`
abbrev pub einval : ℤ
einval = negsuc 21

-- The end of a range rounded up to a page, in 64 bits.
unfoldable pub round_end : ℕ → ℕ
round_end e = if e % 0x1000 == 0 then e else (e / page_size + 1) * page_size % 2 ^ 64

-- The start of a range rounded down to a page.
unfoldable pub round_start : ℕ → ℕ
round_start s = if s % 0x1000 == 0 then s else s - s % page_size

module _ (scan_range : String → Option (ℕ × ℕ × ℕ)) (depth : ℕ) (cpu : CpuType) where
  unfoldable pub cmd_hrange : List String → M ℤ
  unfolding hrange_submit round_end round_start
  cmd_hrange [] = pure (pos 0)
  cmd_hrange (arg ∷ more) = elim (scan_range arg) [
    | none ↦ pure einval
    | some (range_id, range_start, range_end) ↦
        if ltb 3 range_id
        then pure einval
        else if leb range_end range_start
        then pure einval
        else hrange_submit depth cpu range_id (round_start range_start) (round_end range_end)
          >> cmd_hrange more
  ]
