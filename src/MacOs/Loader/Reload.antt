-- ===== src/MacOs/Loader/Reload.antt =====
-- The loader built with AUTORELOAD (macOS_x86_64/loader/loader.c): it becomes the program itself, and
-- nothing starts the program again.
use kafl_targets.Base.{ℕ, ⊤, String, inl, [], arith}
use kafl_targets.Machine.{Env, History, M, After, After-bind, After-then, ◌>>◌, ◌>>=◌}
use kafl_targets.Cycle.{AtBare, AtIdle, InOrder}
use kafl_targets.MacOs.Fuzzer.{fuzzer_main}
use kafl_targets.MacOs.Fuzzer.Laws.{fuzzer_main-InOrder}
use kafl_targets.MacOs.Loader.{become_program, store_program, get_program}
use kafl_targets.MacOs.Loader.Laws.{get_program-InOrder, store_program-phase}

module _ (target_file : String) (program_size : ℕ) where
  -- `load_program` and `execute_program`
  reload_program : ℕ → M ⊤
  unfolding store_program become_program
  reload_program buf =
      store_program target_file program_size buf >> become_program target_file program_size

  -- `main`
  reload_main : M ⊤
  unfolding get_program reload_program
  reload_main = get_program target_file program_size >>= reload_program

  module _ (env : Env) where
    become_program-phase :
        (h : History)
        → AtBare h
        → After (λ _. AtBare) InOrder (become_program target_file program_size env h)
    unfolding become_program
    become_program-phase h at_start = ground arith

    reload_program-phase :
        (buf : ℕ) (h : History) → AtBare h → After (λ _. AtBare) InOrder (reload_program buf env h)
    unfolding reload_program
    reload_program-phase buf h at_start =
        After-then AtBare (λ _. AtBare) InOrder (store_program target_file program_size buf)
          (become_program target_file program_size) env h
          (store_program-phase target_file program_size env buf h at_start) become_program-phase

    reload_main-phase : After (λ _. AtBare) InOrder (reload_main env [])
    unfolding reload_main
    reload_main-phase =
        After-bind (λ _. AtBare) (λ _. AtBare) InOrder (get_program target_file program_size)
          reload_program env [] (get_program-InOrder target_file program_size env)
          reload_program-phase

    -- The loader and the fuzzing program that it becomes keep to the fuzzing cycle for any number of
    -- rounds: wherever they are cut off no call is out of order.
    reload_main-InOrder :
        (payload_size n : ℕ)
        → After (λ _. AtIdle) InOrder ((reload_main >> fuzzer_main payload_size n) env [])
    reload_main-InOrder payload_size n =
        After-then AtBare (λ _. AtIdle) InOrder reload_main (fuzzer_main payload_size n) env []
          reload_main-phase λ h q. fuzzer_main-InOrder payload_size n env h (inl q)
