-- ===== src/Windows/SelfFuzz/Laws.antt =====
-- Memory safety of the self-fuzzing target.
use kafl_targets.Base.{ℕ, String, ◌≤◌, List, length, ltb, Bool-cases, inl, inr, arith}
use kafl_targets.Machine.{Env, History, After, After-then, NoBadAccess}
use kafl_targets.Cycle.{AtRunning, InOrder}
use kafl_targets.Buffer.{codes, probe, bytes_of}
use kafl_targets.Buffer.Laws.{bytes_of-inside, After-probe, probe-NoBadAccess, NoBadAccess-then}
use kafl_targets.Windows.SelfFuzz.{fuzzme, panic}

panic-NoBadAccess : (env : Env) (h : History) → NoBadAccess (panic env h)
unfolding panic
panic-NoBadAccess env h = ground arith

-- On an input that is as long as its size says, `fuzzme` reads only bytes of it.
fuzzme-NoBadAccess :
    (input : List ℕ) (size : ℕ) (env : Env) (h : History)
    → size ≤ length input
    → NoBadAccess (fuzzme input size env h)
unfolding fuzzme
fuzzme-NoBadAccess input size env h holds = elim (Bool-cases (ltb 0x11 size)) [
  | inr short ↦ rw short tt
  | inl enough ↦
      let le : 18 ≤ length input = ground arith in
      rw enough (
        NoBadAccess-then (probe (bytes_of input) "K3rN3lAFL#" panic)
          (probe (bytes_of input) "PwnT0wn!" panic) env h
          (probe-NoBadAccess (bytes_of input) "K3rN3lAFL#" panic env h
            (bytes_of-inside input (codes "K3rN3lAFL#") (omega arith)) (panic-NoBadAccess env h))
          λ h1.
            probe-NoBadAccess (bytes_of input) "PwnT0wn!" panic env h1
              (bytes_of-inside input (codes "PwnT0wn!") (omega arith)) (panic-NoBadAccess env h1))
]

-- `fuzzme` leaves the fuzzing cycle to its caller.
pub fuzzme-phase :
    (input : List ℕ) (size : ℕ) (env : Env) (h : History)
    → AtRunning h
    → After (λ _. AtRunning) InOrder (fuzzme input size env h)
unfolding fuzzme panic
fuzzme-phase input size env h at_start = elim (Bool-cases (ltb 0x11 size)) [
  | inr short ↦ rw short at_start
  | inl enough ↦ rw enough (
      After-then AtRunning (λ _. AtRunning) InOrder (probe (bytes_of input) "K3rN3lAFL#" panic)
        (probe (bytes_of input) "PwnT0wn!" panic) env h (check "K3rN3lAFL#" h at_start)
        (check "PwnT0wn!"))
]
  where
    check :
        (w : String) (h' : History)
        → AtRunning h'
        → After (λ _. AtRunning) InOrder (probe (bytes_of input) w panic env h')
    check w h' running =
        After-probe AtRunning InOrder (bytes_of input) w panic env h' running (ground arith)
          (ground arith)
