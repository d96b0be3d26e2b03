-- ===== src/Uefi/Target/Laws.antt =====
-- When the target of the null package panics, and what it reads.
use kafl_targets.Base.{ℕ, ◌≤◌, List, length, ltb, Bool-cases, inl, inr, arith}
use kafl_targets.Machine.{Env, History, NoBadAccess, After}
use kafl_targets.Cycle.{AtRunning, InOrder}
use kafl_targets.Harness.{under_test-phase, KeepsCycle, length_of}
use kafl_targets.Buffer.{codes, bytes_of}
use kafl_targets.Buffer.Laws.{After-probe, bytes_of-inside, probe-NoBadAccess}
use kafl_targets.Uefi.Target.{init_target, run_target, null_harness}

-- On an input that is as long as its size says, the target reads only bytes of it.
run_target-NoBadAccess :
    (input : List ℕ) (size : ℕ) (env : Env) (h : History)
    → size ≤ length input
    → NoBadAccess (run_target input size env h)
unfolding run_target
run_target-NoBadAccess input size env h holds = elim (Bool-cases (ltb size 4)) [
  | inl short ↦ rw short tt
  | inr enough ↦
      let le : 4 ≤ length input = ground arith in
      rw enough (
        probe-NoBadAccess (bytes_of input) "dead" _ env h
          (bytes_of-inside input (codes "dead") (omega arith)) (ground arith))
]

run_target-phase :
    (input : List ℕ) (size : ℕ) (env : Env) (h : History)
    → AtRunning h
    → After (λ _. AtRunning) InOrder (run_target input size env h)
unfolding run_target
run_target-phase input size env h running = elim (Bool-cases (ltb size 4)) [
  | inl short ↦ rw short running
  | inr enough ↦ rw enough (
      After-probe AtRunning InOrder (bytes_of input) "dead" _ env h running (ground arith)
        (ground arith))
]

pub null-KeepsCycle : (env : Env) → KeepsCycle null_harness env
unfolding init_target
null-KeepsCycle env = record {
  init_keeps = λ h start. ground arith;
  run_keeps = λ p.
      under_test-phase p (run_target p.content (length_of 64 p)) env
        (run_target-phase p.content (length_of 64 p) env);
}
