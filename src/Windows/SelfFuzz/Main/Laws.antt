-- ===== src/Windows/SelfFuzz/Main/Laws.antt =====
-- The order of the calls of the self-fuzzing program, and the code that it has traced.
use package.text.Mathlib.Text.{◌==◌ as str_eq}
use kafl_targets.Base.{
  ℕ, ◌+◌, ◌%◌, ◌^◌, ◌==◌, if◌then◌else◌, Bool, List, [], ◌∷◌, ◌++◌, ◌≢◌, arith, Bool-cases, inl,
  inr,
}
use kafl_targets.Nyx
use kafl_targets.Machine.{Env, History, After, After-then, ◌>>◌, vmcall, call, range_ptr, num}
use kafl_targets.Buffer.{codes}
use kafl_targets.Cycle.{AtBare, AtIdle, InOrder}
use kafl_targets.Windows.SelfFuzz.Laws.{fuzzme-phase}
use kafl_targets.Windows.SelfFuzz.Main.{
  Section, is_text, submit_section, search_sections, submit_ip_ranges, kafl_agent_init,
  create_snapshot, advise_ranges, fuzz_once, selffuzz_main,
}

create_snapshot-phase : (env : Env) → After (λ _. AtBare) InOrder (create_snapshot env [])
unfolding create_snapshot
create_snapshot-phase env = ground arith

kafl_agent_init-phase :
    (env : Env) (h : History) → AtBare h → After (λ _. AtIdle) InOrder (kafl_agent_init env h)
unfolding kafl_agent_init
kafl_agent_init-phase env h at_start = ground arith

advise_ranges-phase :
    (env : Env) (h : History) → AtIdle h → After (λ _. AtIdle) InOrder (advise_ranges env h)
unfolding advise_ranges
advise_ranges-phase env h at_start = ground arith

submit_section-phase :
    (m : ℕ) (s : Section) (env : Env) (h : History)
    → AtIdle h
    → After (λ _. AtIdle) InOrder (submit_section m s env h)
unfolding submit_section
submit_section-phase m s env h at_start = ground arith

search_sections-phase :
    (m : ℕ) (sections : List Section) (env : Env) (h : History)
    → AtIdle h
    → After (λ _. AtIdle) InOrder (search_sections m sections env h)
unfolding search_sections
search_sections-phase m [] env h at_start = ground arith
search_sections-phase m (s ∷ more) env h at_start = elim (Bool-cases (is_text s)) [
  | inl text ↦ rw text (submit_section-phase m s env h at_start)
  | inr other ↦ rw other (search_sections-phase m more env h at_start)
]

submit_ip_ranges-phase :
    (valid : Bool) (sections : List Section) (env : Env) (h : History)
    → AtIdle h
    → After (λ _. AtIdle) InOrder (submit_ip_ranges valid sections env h)
unfolding submit_ip_ranges
submit_ip_ranges-phase valid sections env h at_start = grind (arith, search_sections-phase)

-- No name of the sections begins with ".text".
abbrev pub NoText : List Section → Type 0
NoText [] = Unit
NoText (s ∷ more) = ((rest : List ℕ) → s.name ≢ codes ".text" ++ rest) × NoText more

-- The ranges that a history submits to be traced, and those that it locks, the latest first.
abbrev pub ranges : History → List (ℕ × ℕ)
ranges [] = []
ranges (vmcall id (range_ptr first last n) ∷ h) =
    let before = ranges h in if id == Nyx.range_submit then (first, last) ∷ before else before
ranges (_ ∷ h) = ranges h

abbrev pub locks : History → List (ℕ × ℕ)
locks [] = []
locks (call name (num first ∷ num size ∷ []) ∷ h) =
    let before = locks h in if str_eq name "VirtualLock" then (first, size) ∷ before else before
locks (_ ∷ h) = locks h

-- Where a section lies in memory.
abbrev pub first_byte : ℕ → Section → ℕ
first_byte m s = (m + s.virtual_address) % 2 ^ 64

abbrev pub end_byte : ℕ → Section → ℕ
end_byte m s = (first_byte m s + s.virtual_size) % 2 ^ 64

fuzz_once-phase :
    (env : Env) (h : History) → AtIdle h → After (λ _. AtIdle) InOrder (fuzz_once env h)
unfolding fuzz_once
fuzz_once-phase env h at_start = grind (arith, fuzzme-phase)

-- The self-fuzzing program places its calls in the order of the fuzzing cycle, whatever sections its
-- image has: wherever it is cut off no call is out of order, and it ends in the idle phase.
pub selffuzz_main-InOrder :
    (valid : Bool) (sections : List Section) (env : Env)
    → After (λ _. AtIdle) InOrder (selffuzz_main valid sections env [])
unfolding selffuzz_main
selffuzz_main-InOrder valid sections env =
    let ranges = submit_ip_ranges valid sections in
    After-then AtBare (λ _. AtIdle) InOrder create_snapshot
      (kafl_agent_init >> (advise_ranges >> (ranges >> fuzz_once))) env []
      (create_snapshot-phase env)
      λ h1 q1.
        After-then AtIdle (λ _. AtIdle) InOrder kafl_agent_init
          (advise_ranges >> (ranges >> fuzz_once)) env h1 (kafl_agent_init-phase env h1 q1)
          λ h2 q2.
            After-then AtIdle (λ _. AtIdle) InOrder advise_ranges (ranges >> fuzz_once) env h2
              (advise_ranges-phase env h2 q2)
              λ h3 q3.
                After-then AtIdle (λ _. AtIdle) InOrder ranges fuzz_once env h3
                  (submit_ip_ranges-phase valid sections env h3 q3) (fuzz_once-phase env)
