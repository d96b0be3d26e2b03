-- ===== src/MacOs/Fuzzer/Machine.antt =====
-- The loader and the fuzzing program on one machine: the loader gets the program from the host, and
-- starts it again whenever it has died.
use package.text.Mathlib.Text.{◌==◌ as str_eq}
use package.text.Mathlib.TextPositions.{eq_refl as str_eq_refl}
use mathlib.Core.Path.{subst}
use kafl_targets.Base.{ℕ, zero, suc, ⊤, String, ◌⊎◌, inl, inr, [], ◌∷◌, arith, if◌then◌else◌}
use kafl_targets.Base.Int.{pos}
use kafl_targets.Machine.{
  Env, History, call, str, M, skip, After, After-bind, After-repeat, then_other, crashing,
  After-then_other, ◌>>=◌, repeat,
}
use kafl_targets.Cycle.{AtBare, AtIdle, AtRunning, InOrder}
use kafl_targets.MacOs.Fuzzer.{open_device, fuzz_round, fuzzer_main}
use kafl_targets.MacOs.Loader.{get_program, load_program, execute_loop}
use kafl_targets.MacOs.Loader.Laws.{
  BecomesProgram, starting, get_program-InOrder, load_program-phase, child-phase, parent-phase,
}

-- The program goes on in a process whose last call was an `execve` of it.
abbrev as_program : String → M ⊤ → M ⊤
as_program target_file program env [] = skip env []
as_program target_file program env (call name (str file ∷ []) ∷ h) =
    if str_eq name "execve"
    then (if str_eq file target_file
        then program env (call name (str file ∷ []) ∷ h)
        else skip env h)
    else skip env h
as_program target_file program env (e ∷ h) = skip env h

module _ (target_file : String) (program_size payload_size pid : ℕ) where
  -- A round of the loop of `execute_program` on the machine, in the two processes that `fork` has
  -- left: the child becomes the fuzzing program, which would run `n` more rounds, and then the parent
  -- goes through the loop up to its next `fork`.
  abbrev pub life : ℕ → M ⊤
  life n env h =
      let loop = execute_loop target_file program_size (suc zero) in
      let started = loop (pos 0) (starting env) h in
      let program = as_program target_file (fuzzer_main payload_size (suc n)) in
      let died = then_other started program env h in
      then_other (then_other died (loop (pos (suc pid))) env h) skip env h

  -- `load_program` up to its first `fork`, and then `m + 1` lives of the fuzzing program.
  abbrev pub lives : ℕ → ℕ → ℕ → M ⊤
  lives n m buf env h =
      then_other (load_program target_file program_size zero buf env h) (repeat (suc m) (life n))
        env h

  -- The machine from the start of the loader on.
  abbrev pub machine : ℕ → ℕ → M ⊤
  machine n m = get_program target_file program_size >>= lives n m

  module _ (env : Env) where
    program-crashes :
        (n : ℕ) (h : History)
        → AtBare h ⊎ AtIdle h
        → After (λ _ _. ⊥) AtRunning (fuzzer_main payload_size (suc n) (crashing env) h)
    unfolding fuzzer_main open_device fuzz_round repeat
    program-crashes n h (inl first) = ground arith
    program-crashes n h (inr again) = ground arith

    starts :
        (n : ℕ) (h : History)
        → BecomesProgram target_file program_size env h × (AtBare h ⊎ AtIdle h)
        → After
            (λ _ _. ⊥)
            AtRunning
            (as_program target_file (fuzzer_main payload_size (suc n)) (crashing env) h)
    starts n h ((k, e), found) = rw e (
        rw (str_eq_refl target_file) (
          program-crashes n (call "execve" (str target_file ∷ []) ∷ k)
            (subst (λ l. AtBare l ⊎ AtIdle l) e found)))

    life-phase :
        (n : ℕ) (h : History)
        → AtBare h ⊎ AtIdle h
        → After (λ _. AtIdle) InOrder (life n (crashing env) h)
    life-phase n h found =
        let loop = execute_loop target_file program_size (suc zero) in
        let program = as_program target_file (fuzzer_main payload_size (suc n)) in
        let started = loop (pos 0) (starting (crashing env)) h in
        let died = then_other started program (crashing env) h in
        let closed = then_other died (loop (pos (suc pid))) (crashing env) h in
        After-then_other AtIdle (λ _. AtIdle) InOrder closed skip (crashing env) h
          (After-then_other AtRunning (λ _ _. ⊥) AtIdle died (loop (pos (suc pid))) (crashing env) h
            (After-then_other
              (λ h'. BecomesProgram target_file program_size env h' × (AtBare h' ⊎ AtIdle h'))
              (λ _ _. ⊥) AtRunning started program (crashing env) h
              (child-phase target_file program_size env h found) (starts n))
            (parent-phase target_file program_size env pid))
          (λ h' idle. idle)

    lives-phase :
        (n m buf : ℕ) (h : History)
        → AtBare h
        → After (λ _. AtIdle) InOrder (lives n m buf (crashing env) h)
    lives-phase n m buf h at_start =
        After-then_other AtBare (λ _. AtIdle) InOrder
          (load_program target_file program_size zero buf (crashing env) h)
          (repeat (suc m) (life n)) (crashing env) h
          (load_program-phase target_file program_size env buf h at_start)
          λ h1 q1.
            unfold repeat in
            After-bind (λ _. AtIdle) (λ _. AtIdle) InOrder (life n) (λ _. repeat m (life n))
              (crashing env) h1 (life-phase n h1 (inl q1))
              (λ _.
                After-repeat AtIdle InOrder (life n) (crashing env) (λ h q. life-phase n h (inr q))
                  m)

    -- If the target ends the fuzzing program in the first round of each life, every `execve` starts
    -- the program, and every other call comes back, the loader and the fuzzing program keep to the
    -- fuzzing cycle on their machine for any number of lives: the loader's loop closes the round that
    -- the program has left open, and wherever the machine is cut off no call is out of order.
    pub machine-InOrder : (n m : ℕ) → After (λ _. AtIdle) InOrder (machine n m (crashing env) [])
    machine-InOrder n m =
        After-bind (λ _. AtBare) (λ _. AtIdle) InOrder (get_program target_file program_size)
          (lives n m) (crashing env) []
          (get_program-InOrder target_file program_size (crashing env)) (λ buf. lives-phase n m buf)
