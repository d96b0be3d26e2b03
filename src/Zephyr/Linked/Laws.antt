-- ===== src/Zephyr/Linked/Laws.antt =====
-- What the Zephyr agent relies on, for each of its targets.
use kafl_targets.Base.{ℕ, arith}
use kafl_targets.Machine.{Env, skip, ◌>>◌}
use kafl_targets.Harness.{under_test-phase, under_test-runs, KeepsIdle, Completes, length_of}
use kafl_targets.Zephyr.Target.Laws.{target_entry-phase as test_entry-phase}
use kafl_targets.Zephyr.Directory.Laws.{target_entry-phase as fs_entry-phase}
use kafl_targets.Zephyr.Target.{target_entry as test_entry}
use kafl_targets.Zephyr.Directory.{target_entry as fs_entry}
use kafl_targets.Zephyr.Json.{target_entry}
use kafl_targets.Zephyr.Linked.{test_harness, fs_harness, json_harness}

module _ (env : Env) where
  pub test-KeepsIdle : KeepsIdle test_harness env
  test-KeepsIdle = record {
    init_idle = λ h start. start;
    run_idle = λ p.
        under_test-phase p (test_entry p.content (length_of 32 p) >> skip) env
          (test_entry-phase p.content (length_of 32 p) env);
  }

  fs-KeepsIdle : (fuel : ℕ) → KeepsIdle (fs_harness fuel) env
  fs-KeepsIdle fuel = record {
    init_idle = λ h start. start;
    run_idle = λ p. under_test-phase p (fs_entry fuel >> skip) env (fs_entry-phase fuel env);
  }

  json-KeepsIdle : KeepsIdle json_harness env
  unfolding target_entry
  json-KeepsIdle = record {
    init_idle = λ h start. start;
    run_idle = λ p.
        under_test-phase p (target_entry (length_of 32 p) >> skip) env (λ h running. ground arith);
  }

  json-Completes : Completes json_harness env
  unfolding target_entry
  json-Completes = record {
    init_returns = λ k h so_far. so_far;
    run_returns = λ p k.
        under_test-runs p (target_entry (length_of 32 p) >> skip) env k (λ h so_far. ground arith);
  }
