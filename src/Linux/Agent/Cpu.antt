-- ===== src/Linux/Agent/Cpu.antt =====
-- The Nyx CPU type, and hypercalls that depend on it.

pub mod Laws
use Prim.Native.Char.{code}
use Prim.Native.String.{String}
use kafl_targets.Base.{ℕ, zero, suc, ⊤, Bool, true, false, List, [], ◌∷◌, ◌==◌, if◌then◌else◌}
use kafl_targets.Nyx
use kafl_targets.Machine.{
  M, pure, skip, stop, ◌>>◌, hypercall_raw, Arg, text, range_ptr, stack_overflow, assertion,
}

-- `nyx_cpu_type_t`
pub data CpuType : Type 0 where
  nyx_cpu_invalid nyx_cpu_none nyx_cpu_v1 nyx_cpu_v2 : CpuType

-- The bytes of a text.
abbrev pub codes : String → List ℕ
codes String.[] = []
codes (String.◌∷◌ c s) = code c ∷ codes s

-- `0 == strncmp(a, b, n)`: behind its last byte a string holds the terminator.
pub strncmp_eq : ℕ → List ℕ → List ℕ → Bool
strncmp_eq zero a b = true
strncmp_eq (suc n) [] [] = true
strncmp_eq (suc n) [] (y ∷ b) = y == 0
strncmp_eq (suc n) (x ∷ a) [] = x == 0
strncmp_eq (suc n) (x ∷ a) (y ∷ b) =
    let rest = strncmp_eq n a b in if x == y then (if x == 0 then true else rest) else false

-- `_get_nyx_cpu_type`, on the 16 bytes that CPUID leaves in four registers.
pub detect_cpu_type : List ℕ → CpuType
detect_cpu_type regs =
    if strncmp_eq 17 regs (codes "NYX vCPU (PT)")
    then nyx_cpu_v1
    else if strncmp_eq 17 regs (codes "NYX vCPU (NO-PT)")
    then nyx_cpu_v2
    else nyx_cpu_none

-- `get_nyx_cpu_type`, on the global variable: its value is detected once.
unfoldable pub get_nyx_cpu_type : List ℕ → CpuType → CpuType
get_nyx_cpu_type regs nyx_cpu_invalid = detect_cpu_type regs
get_nyx_cpu_type regs nyx_cpu_none = nyx_cpu_none
get_nyx_cpu_type regs nyx_cpu_v1 = nyx_cpu_v1
get_nyx_cpu_type regs nyx_cpu_v2 = nyx_cpu_v2

-- `hypercall`, with room for `depth` nested calls on the stack: before the CPU type is known it
-- calls `habort_msg`, which is a hypercall again.
unfoldable pub hypercall : ℕ → CpuType → ℕ → Arg → M ℕ
unfolding hypercall_raw
hypercall depth nyx_cpu_v1 id arg = hypercall_raw id arg
hypercall depth nyx_cpu_v2 id arg = pure 0
hypercall depth nyx_cpu_none id arg = pure 0
hypercall zero nyx_cpu_invalid id arg = stop stack_overflow
hypercall (suc depth) nyx_cpu_invalid id arg = do
  hypercall depth nyx_cpu_invalid Nyx.user_abort (text "get_nyx_cpu_type() must be called first\n")
  stop assertion

module _ (depth : ℕ) (cpu : CpuType) where
  -- `habort_msg`
  unfoldable pub habort_msg : String → M ⊤
  unfolding hypercall
  habort_msg msg = hypercall depth cpu Nyx.user_abort (text msg) >> skip

  -- `hrange_submit`
  unfoldable pub hrange_submit : ℕ → ℕ → ℕ → M ⊤
  unfolding hypercall
  hrange_submit id start end = hypercall depth cpu Nyx.range_submit (range_ptr start end id) >> skip
