-- ===== src/Linux/Agent/Cpu/Laws.antt =====
-- Detection of the CPU, and what a hypercall does on each type.
use kafl_targets.Base.{
  ℕ, zero, suc, ◌≡◌, ◌≢◌, ◌<◌, refl, true, List, [], ◌∷◌, arith, length, ◌↔◌, ◌==◌, if◌then◌else◌,
}
use kafl_targets.Nyx
use kafl_targets.Machine.{Env, History, Arg, stopped, stack_overflow, text}
use kafl_targets.Linux.Agent.Cpu.{
  CpuType, nyx_cpu_invalid, nyx_cpu_none, nyx_cpu_v1, nyx_cpu_v2, strncmp_eq, codes,
  detect_cpu_type, get_nyx_cpu_type, hypercall,
}

-- The C string in a buffer: the bytes before the terminator.
abbrev pub c_string : List ℕ → List ℕ
c_string [] = []
c_string (b ∷ s) = let rest = c_string s in if b == 0 then [] else b ∷ rest

c_string-cons_ne : (x y : ℕ) (a b : List ℕ) → x ≢ y → c_string (x ∷ a) ≢ c_string (y ∷ b)
c_string-cons_ne x y a b ne = ground arith

strncmp_eq_iff :
    (n : ℕ) (a b : List ℕ) → length b < n → (strncmp_eq n a b ≡ true) ↔ (c_string a ≡ c_string b)
unfolding strncmp_eq
strncmp_eq_iff zero a b h = elim h [ ]
strncmp_eq_iff (suc n) [] [] h = ground arith
strncmp_eq_iff (suc n) [] (y ∷ b) h = ground arith
strncmp_eq_iff (suc n) (x ∷ a) [] h = ground arith
strncmp_eq_iff (suc n) (x ∷ a) (y ∷ b) h = ground (arith, strncmp_eq_iff n a b)

-- The type is detected from the C string that CPUID spells: version 1 exactly for `NYX vCPU (PT)`,
-- version 2 exactly for `NYX vCPU (NO-PT)`, and no Nyx CPU for any other.
pub detect_cpu_type_iff :
    (regs : List ℕ)
    → ((detect_cpu_type regs ≡ nyx_cpu_v1) ↔ (c_string regs ≡ codes "NYX vCPU (PT)"))
      × ((detect_cpu_type regs ≡ nyx_cpu_v2) ↔ (c_string regs ≡ codes "NYX vCPU (NO-PT)"))
      × (detect_cpu_type regs ≢ nyx_cpu_invalid)
unfolding detect_cpu_type
detect_cpu_type_iff regs = ground (
  arith,
  strncmp_eq_iff 17 regs (codes "NYX vCPU (PT)"),
  strncmp_eq_iff 17 regs (codes "NYX vCPU (NO-PT)"),
)

detect_stays :
    (regs : List ℕ) (cpu : CpuType) → cpu ≢ nyx_cpu_invalid → get_nyx_cpu_type regs cpu ≡ cpu
unfolding get_nyx_cpu_type
detect_stays regs nyx_cpu_invalid ne = absurd (ne refl)
detect_stays regs nyx_cpu_none ne = refl
detect_stays regs nyx_cpu_v1 ne = refl
detect_stays regs nyx_cpu_v2 ne = refl

-- Detection happens once: the type found is valid, and asking again, whatever CPUID then answers,
-- does not change it.
get_nyx_cpu_type_stable :
    (regs later : List ℕ) (cpu : CpuType)
    → (get_nyx_cpu_type regs cpu ≢ nyx_cpu_invalid)
      × (get_nyx_cpu_type later (get_nyx_cpu_type regs cpu) ≡ get_nyx_cpu_type regs cpu)
unfolding get_nyx_cpu_type
get_nyx_cpu_type_stable regs later nyx_cpu_invalid = ground (
  arith,
  (detect_cpu_type_iff regs).2,
  detect_stays later (detect_cpu_type regs) (detect_cpu_type_iff regs).2,
)
get_nyx_cpu_type_stable regs later nyx_cpu_none = ground arith
get_nyx_cpu_type_stable regs later nyx_cpu_v1 = ground arith
get_nyx_cpu_type_stable regs later nyx_cpu_v2 = ground arith

-- A hypercall before the CPU type is known never comes back and never reaches the host: it calls
-- itself to report the mistake until the stack is exhausted, however deep that is.
pub hypercall_before_detection :
    (depth id : ℕ) (arg : Arg) (env : Env) (h : History)
    → hypercall depth nyx_cpu_invalid id arg env h ≡ stopped stack_overflow h
unfolding hypercall
hypercall_before_detection zero id arg env h = refl
hypercall_before_detection (suc depth) id arg env h = rw (
    hypercall_before_detection depth Nyx.user_abort
      (text "get_nyx_cpu_type() must be called first\n") env h)
