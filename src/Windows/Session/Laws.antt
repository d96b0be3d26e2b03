-- ===== src/Windows/Session/Laws.antt =====
-- The set-up of a gdiplus program, as a part of the fuzzing cycle.
use kafl_targets.Base.{ℕ, zero, suc, ◌+◌, arith}
use kafl_targets.Nyx.{Range}
use kafl_targets.Machine.{Env, History, After, After-then, ◌>>◌}
use kafl_targets.Cycle.{AtBare, AtIdle, InOrder}
use kafl_targets.Windows.Session.{
  install_handler, submit_buffer, advise_ranges, grow_working_set, submit_mode, lock_range,
  lock_from, lock_ranges, open_session,
}

pub install_handler-phase :
    (env : Env) (h : History) → AtBare h → After (λ _. AtBare) InOrder (install_handler env h)
unfolding install_handler
install_handler-phase env h at_start = ground arith

submit_buffer-phase :
    (payload_size : ℕ) (env : Env) (h : History)
    → AtBare h
    → After (λ _. AtIdle) InOrder (submit_buffer payload_size env h)
unfolding submit_buffer
submit_buffer-phase payload_size env h at_start = ground arith

advise_ranges-phase :
    (env : Env) (h : History) → AtIdle h → After (λ _. AtIdle) InOrder (advise_ranges env h)
unfolding advise_ranges
advise_ranges-phase env h at_start = ground arith

grow_working_set-phase :
    (env : Env) (h : History) → AtIdle h → After (λ _. AtIdle) InOrder (grow_working_set env h)
unfolding grow_working_set
grow_working_set-phase env h at_start = ground arith

submit_mode-phase :
    (env : Env) (h : History) → AtIdle h → After (λ _. AtIdle) InOrder (submit_mode env h)
unfolding submit_mode
submit_mode-phase env h at_start = ground arith

module _ (ranges : History → ℕ → Range) (env : Env) where
  lock_range-phase :
      (i : ℕ) (h : History) → AtIdle h → After (λ _. AtIdle) InOrder (lock_range ranges i env h)
  unfolding lock_range
  lock_range-phase i h at_start = ground arith

  lock_from-phase :
      (n i : ℕ) (h : History) → AtIdle h → After (λ _. AtIdle) InOrder (lock_from ranges n i env h)
  unfolding lock_from
  lock_from-phase zero i h at_start = at_start
  lock_from-phase (suc n) i h at_start =
      After-then AtIdle (λ _. AtIdle) InOrder (lock_range ranges i) (lock_from ranges n (i + 1)) env
        h (lock_range-phase i h at_start) (lock_from-phase n (i + 1))

  lock_ranges-phase :
      (h : History) → AtIdle h → After (λ _. AtIdle) InOrder (lock_ranges ranges env h)
  unfolding lock_ranges
  lock_ranges-phase h at_start =
      After-then AtIdle (λ _. AtIdle) InOrder grow_working_set (lock_from ranges 4 0 >> submit_mode)
        env h (grow_working_set-phase env h at_start)
        λ h1 q1.
          After-then AtIdle (λ _. AtIdle) InOrder (lock_from ranges 4 0) submit_mode env h1
            (lock_from-phase 4 0 h1 q1) (submit_mode-phase env)

  pub open_session-phase :
      (payload_size : ℕ) (h : History)
      → AtBare h
      → After (λ _. AtIdle) InOrder (open_session ranges payload_size env h)
  unfolding open_session
  open_session-phase payload_size h at_start =
      After-then AtIdle (λ _. AtIdle) InOrder (submit_buffer payload_size)
        (advise_ranges >> lock_ranges ranges) env h
        (submit_buffer-phase payload_size env h at_start)
        λ h1 q1.
          After-then AtIdle (λ _. AtIdle) InOrder advise_ranges (lock_ranges ranges) env h1
            (advise_ranges-phase env h1 q1) lock_ranges-phase
