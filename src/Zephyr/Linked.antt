-- ===== src/Zephyr/Linked.antt =====
-- The Zephyr agent is linked with one of the targets (zephyr_x86_32/src/target_*.c); the initialisation
-- of each does nothing.
pub mod Laws
use kafl_targets.Base.{ℕ}
use kafl_targets.Machine.{skip, ◌>>=◌, ◌>>◌}
use kafl_targets.Harness.{Harness, under_test, length_of}
use kafl_targets.Zephyr.Target.{target_entry as test_entry}
use kafl_targets.Zephyr.Directory.{target_entry as fs_entry}
use kafl_targets.Zephyr.Json.{target_entry as json_entry}

abbrev pub test_harness : Harness
test_harness = record {
  init = skip;
  run = λ p. under_test p (test_entry p.content (length_of 32 p) >> skip);
}

-- The loop over the directory is cut off by `fuel`.
abbrev pub fs_harness : ℕ → Harness
fs_harness fuel = record { init = skip; run = λ p. under_test p (fs_entry fuel >> skip) }

abbrev pub json_harness : Harness
json_harness = record { init = skip; run = λ p. under_test p (json_entry (length_of 32 p) >> skip) }
