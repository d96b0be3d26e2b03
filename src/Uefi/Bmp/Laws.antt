-- ===== src/Uefi/Bmp/Laws.antt =====
-- What the bitmap target keeps: the pool and the fuzzing cycle.
use package.text.Mathlib.Text.{◌==◌ as str_eq}
use kafl_targets.Base.{ℕ, List, ◌∷◌, arith, if◌then◌else◌}
use kafl_targets.Machine.{skip, ◌>>◌, Env, History, Event, call, Returns, live}
use kafl_targets.Harness.{under_test-phase, under_test-runs, KeepsCycle, Completes, length_of}
use kafl_targets.Uefi.Pool.{Block, InUse, free_pool}
use kafl_targets.Uefi.Bmp.{init_harness, run_harness, bmp_harness}

module _ (blt : History → ℕ) (env : Env) where
  bmp-KeepsCycle : KeepsCycle (bmp_harness blt) env
  unfolding run_harness init_harness free_pool
  bmp-KeepsCycle = record {
    init_keeps = λ h start. ground arith;
    run_keeps = λ p.
        under_test-phase p (run_harness blt (length_of 64 p) >> skip) env (λ h start. ground arith);
  }

  bmp-Completes : Completes (bmp_harness blt) env
  unfolding run_harness init_harness free_pool
  bmp-Completes = record {
    init_returns = λ k h so_far. ground arith;
    run_returns = λ p k.
        under_test-runs p (run_harness blt (length_of 64 p) >> skip) env k
          (λ h so_far. ground arith);
  }

  -- The block that `TranslateBmpToGopBlt` has handed out.
  abbrev pub picture : History → Event → Block
  picture h (call name args) = record {
    base = if str_eq name "TranslateBmpToGopBlt" then blt (call name args ∷ h) else 0;
    bytes = 0;
  }
  picture h _ = record { base = 0; bytes = 0 }

  -- Where every call comes back, a run of the bitmap target, whatever its status, leaves the pool as
  -- it found it: it frees the picture if there is one, once, and nothing else.
  bmp-InUse :
      (n : ℕ) (bs : List Block) (h : History)
      → InUse picture bs h
      → Returns (λ _. InUse picture bs) (run_harness blt n (live env) h)
  unfolding run_harness free_pool
  bmp-InUse n bs h before = ground arith
