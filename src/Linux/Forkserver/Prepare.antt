-- ===== src/Linux/Forkserver/Prepare.antt =====
-- The fork server up to its loop, as a part of the fuzzing cycle.
use kafl_targets.Base.{ℕ, Bool, String, Option, List, [], ◌∷◌, refl, arith}
use kafl_targets.Machine.{Env, History, After, After-then, ◌>>◌}
use kafl_targets.Cycle.{AtBare, AtIdle, InOrder}
use kafl_targets.Linux.Agent.Cpu.{nyx_cpu_v1}
use kafl_targets.Linux.Agent.Pages.{malloc_resident_pages}
use kafl_targets.Linux.Forkserver.{
  agent_init, redirect, redirect_all, submit_buffer, submit_ranges, range_loop, detectranges,
  prepare,
}
use kafl_targets.Linux.Forkserver.Round.{errno_fail_on}

agent_init-phase :
    (env : Env) (h : History) → AtBare h → After (λ _. AtBare) InOrder (agent_init env h)
unfolding agent_init
agent_init-phase env h at_start = ground arith

redirect-phase :
    (to : ℕ) (msg : String) (env : Env) (h : History)
    → AtBare h
    → After (λ _. AtBare) InOrder (redirect to msg env h)
unfolding redirect errno_fail_on
redirect-phase to msg env h at_start = ground arith

redirect_all-phase :
    (stdin_mode : Bool) (env : Env) (h : History)
    → AtBare h
    → After (λ _. AtBare) InOrder (redirect_all stdin_mode env h)
unfolding redirect_all errno_fail_on
redirect_all-phase stdin_mode env h at_start = grind (arith, redirect-phase)

submit_buffer-phase :
    (env : Env) (h : History) → AtBare h → After (λ _. AtIdle) InOrder (submit_buffer env h)
unfolding submit_buffer malloc_resident_pages
submit_buffer-phase env h at_start = ground arith

module _ (depth : ℕ) (scan : String → Option (ℕ × ℕ × String)) (matches : String → Bool)
    (env : Env) where
  range_loop-phase :
      (lines : List String) (region : ℕ) (h : History)
      → AtIdle h
      → After (λ _. AtIdle) InOrder (range_loop depth nyx_cpu_v1 scan matches lines region env h)
  unfolding range_loop
  range_loop-phase [] region h at_start = at_start
  range_loop-phase (line ∷ lines) region h at_start = grind (arith, range_loop-phase lines)

  detectranges-phase :
      (lines : List String) (mapfile : String) (h : History)
      → AtIdle h
      → After (λ _. AtIdle) InOrder (detectranges depth nyx_cpu_v1 scan matches lines mapfile env h)
  unfolding detectranges errno_fail_on
  detectranges-phase lines mapfile h at_start = grind (arith, range_loop-phase lines)

  submit_ranges-phase :
      (lines : List String) (h : History)
      → AtIdle h
      → After (λ _. AtIdle) InOrder (submit_ranges depth nyx_cpu_v1 scan matches lines env h)
  unfolding submit_ranges
  submit_ranges-phase lines h at_start = grind (arith, detectranges-phase)

  -- On a version 1 CPU the fork server, up to its loop, keeps to the fuzzing cycle, whatever the host's
  -- configuration and the process's memory map: wherever it is cut off no call is out of order, and
  -- its first child starts in the idle phase.
  pub prepare-InOrder :
      (lines : List String) (stdin_mode : Bool)
      → After (λ _. AtIdle) InOrder (prepare depth nyx_cpu_v1 scan matches lines stdin_mode env [])
  unfolding prepare
  prepare-InOrder lines stdin_mode =
      let ranges = submit_ranges depth nyx_cpu_v1 scan matches lines in
      After-then AtBare (λ _. AtIdle) InOrder (redirect_all stdin_mode)
        (agent_init >> (submit_buffer >> ranges)) env [] (redirect_all-phase stdin_mode env [] refl)
        λ h1 q1.
          After-then AtBare (λ _. AtIdle) InOrder agent_init (submit_buffer >> ranges) env h1
            (agent_init-phase env h1 q1)
            λ h2 q2.
              After-then AtIdle (λ _. AtIdle) InOrder submit_buffer ranges env h2
                (submit_buffer-phase env h2 q2) (submit_ranges-phase lines)
