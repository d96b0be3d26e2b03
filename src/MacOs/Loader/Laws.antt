-- ===== src/MacOs/Loader/Laws.antt =====
-- The order of the calls of the loader, and what its processes do.
use package.text.Mathlib.Text.{◌==◌ as str_eq}
use kafl_targets.Base.{
  ℕ, zero, suc, ◌≡◌, refl, ◌⊎◌, inl, inr, Bool, true, not, ◌&&◌, String, [], ◌∷◌, arith,
}
use kafl_targets.Base.Int.{pos}
use kafl_targets.Machine.{
  Env, Event, vmcall, target, History, After, Unfinished, live, crashing, call, str,
}
use kafl_targets.Cycle.{AtBare, AtIdle, AtRunning, InOrder}
use kafl_targets.MacOs.Loader.{
  get_kernel_symbol_addr, get_program, become_program, reap, execute_loop, store_program,
  load_program,
}

get_kernel_symbol_addr-phase :
    (symbol : String) (env : Env) (h : History)
    → AtBare h
    → After (λ _. AtBare) InOrder (get_kernel_symbol_addr symbol env h)
unfolding get_kernel_symbol_addr
get_kernel_symbol_addr-phase symbol env h at_start = ground arith

module _ (target_file : String) (program_size : ℕ) (env : Env) where
  -- The loader keeps to the fuzzing cycle: wherever it is cut off no call is out of order, and when it
  -- has got the program, the fuzzing program can begin its part of the cycle.
  pub get_program-InOrder :
      After (λ _. AtBare) InOrder (get_program target_file program_size env [])
  unfolding get_program get_kernel_symbol_addr
  get_program-InOrder = ground arith

  pub store_program-phase :
      (buf : ℕ) (h : History)
      → AtBare h
      → After (λ _. AtBare) InOrder (store_program target_file program_size buf env h)
  unfolding store_program
  store_program-phase buf h at_start = ground arith

  -- A child of the loader whose `execve` comes back, which it does if it fails, never ends: no number
  -- of rounds is enough.
  execute_loop-Unfinished :
      (fuel : ℕ) (h : History)
      → Unfinished (execute_loop target_file program_size fuel (pos 0) (live env) h)
  unfolding execute_loop become_program
  execute_loop-Unfinished zero h = tt
  execute_loop-Unfinished (suc fuel) h =
      execute_loop-Unfinished fuel (call "execve" (str target_file ∷ []) ∷ h)

-- An `execve` that succeeds does not come back: another program goes on in its process.
abbrev stays : Event → Bool
stays (call name args) = not (str_eq name "execve")
stays (vmcall id a) = true
stays (target p) = true

abbrev pub starting : Env → Env
starting env = record env { resumes = λ h e. stays e && env.resumes h e }

module _ (target_file : String) (program_size : ℕ) (env : Env) where
  -- The loader stores the program and forks.
  pub load_program-phase :
      (buf : ℕ) (h : History)
      → AtBare h
      → After (λ _ _. ⊥) AtBare (load_program target_file program_size zero buf (crashing env) h)
  unfolding load_program store_program execute_loop
  load_program-phase buf h at_start = ground arith

  -- The last call was an `execve` of the program.
  abbrev pub BecomesProgram : History → Type 0
  BecomesProgram h' = (h : History) × (h' ≡ call "execve" (str target_file ∷ []) ∷ h)

  child-becomes :
      (h : History)
      → After
          (λ _ _. ⊥)
          BecomesProgram
          (execute_loop target_file program_size (suc zero) (pos 0) (starting (crashing env)) h)
  unfolding execute_loop become_program
  child-becomes h = (h, refl)

  -- The child becomes the program, whichever phase it finds.
  pub child-phase :
      (h : History)
      → AtBare h ⊎ AtIdle h
      → After
          (λ _ _. ⊥)
          (λ h'. BecomesProgram h' × (AtBare h' ⊎ AtIdle h'))
          (execute_loop target_file program_size (suc zero) (pos 0) (starting (crashing env)) h)
  unfolding execute_loop become_program
  child-phase h (inl first) = (child-becomes h, inl (ground arith))
  child-phase h (inr again) = (child-becomes h, inr (ground arith))

  -- The parent closes the round that its child has left open.
  pub parent-phase :
      (pid : ℕ) (h : History)
      → AtRunning h
      → After
          (λ _ _. ⊥)
          AtIdle
          (execute_loop target_file program_size (suc zero) (pos (suc pid)) (crashing env) h)
  unfolding execute_loop reap
  parent-phase pid h running = ground arith
