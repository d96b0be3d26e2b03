-- ===== src/Windows/Session/Runs.antt =====
-- The set-up of a gdiplus program, where every call comes back, and the runs of the target.
use kafl_targets.Base.{ℕ, zero, suc, ◌+◌, arith}
use kafl_targets.Nyx.{Range}
use kafl_targets.Machine.{Env, History, Returns, After-then, live, ◌>>◌}
use kafl_targets.Cycle.{HasRun}
use kafl_targets.Windows.Session.{
  submit_buffer, advise_ranges, lock_range, lock_from, lock_ranges, open_session, grow_working_set,
  submit_mode,
}

module _ (k : ℕ) (env : Env) where
  submit_buffer-runs :
      (payload_size : ℕ) (h : History)
      → HasRun k h
      → Returns (λ _. HasRun k) (submit_buffer payload_size (live env) h)
  unfolding submit_buffer
  submit_buffer-runs payload_size h so_far = ground arith

  advise_ranges-runs :
      (h : History) → HasRun k h → Returns (λ _. HasRun k) (advise_ranges (live env) h)
  unfolding advise_ranges
  advise_ranges-runs h so_far = ground arith

  grow_working_set-runs :
      (h : History) → HasRun k h → Returns (λ _. HasRun k) (grow_working_set (live env) h)
  unfolding grow_working_set
  grow_working_set-runs h so_far = ground arith

  submit_mode-runs : (h : History) → HasRun k h → Returns (λ _. HasRun k) (submit_mode (live env) h)
  unfolding submit_mode
  submit_mode-runs h so_far = ground arith

  module _ (ranges : History → ℕ → Range) where
    lock_range-runs :
        (i : ℕ) (h : History)
        → HasRun k h
        → Returns (λ _. HasRun k) (lock_range ranges i (live env) h)
    unfolding lock_range
    lock_range-runs i h so_far = ground arith

    lock_from-runs :
        (n i : ℕ) (h : History)
        → HasRun k h
        → Returns (λ _. HasRun k) (lock_from ranges n i (live env) h)
    unfolding lock_from
    lock_from-runs zero i h so_far = so_far
    lock_from-runs (suc n) i h so_far =
        After-then (HasRun k) (λ _. HasRun k) (λ _. ⊥) (lock_range ranges i)
          (lock_from ranges n (i + 1)) (live env) h (lock_range-runs i h so_far)
          (lock_from-runs n (i + 1))

    lock_ranges-runs :
        (h : History) → HasRun k h → Returns (λ _. HasRun k) (lock_ranges ranges (live env) h)
    unfolding lock_ranges
    lock_ranges-runs h so_far =
        After-then (HasRun k) (λ _. HasRun k) (λ _. ⊥) grow_working_set
          (lock_from ranges 4 0 >> submit_mode) (live env) h (grow_working_set-runs h so_far)
          λ h1 q1.
            After-then (HasRun k) (λ _. HasRun k) (λ _. ⊥) (lock_from ranges 4 0) submit_mode
              (live env) h1 (lock_from-runs 4 0 h1 q1) submit_mode-runs

    pub open_session-runs :
        (payload_size : ℕ) (h : History)
        → HasRun k h
        → Returns (λ _. HasRun k) (open_session ranges payload_size (live env) h)
    unfolding open_session
    open_session-runs payload_size h so_far =
        After-then (HasRun k) (λ _. HasRun k) (λ _. ⊥) (submit_buffer payload_size)
          (advise_ranges >> lock_ranges ranges) (live env) h
          (submit_buffer-runs payload_size h so_far)
          λ h1 q1.
            After-then (HasRun k) (λ _. HasRun k) (λ _. ⊥) advise_ranges (lock_ranges ranges)
              (live env) h1 (advise_ranges-runs h1 q1) lock_ranges-runs
