-- ===== src/MacOs/Fuzzer/Laws.antt =====
-- The order of the calls of the fuzzing program.
use kafl_targets.Base.{ℕ, ◌⊎◌, inl, inr, arith}
use kafl_targets.Base.Int.{ℤ}
use kafl_targets.Machine.{Env, History, After, After-bind, After-repeat, repeat}
use kafl_targets.Cycle.{AtBare, AtIdle, InOrder}
use kafl_targets.MacOs.Fuzzer.{open_device, fuzz_round, fuzzer_main}

open_device-phase :
    (payload_size : ℕ) (env : Env) (h : History)
    → AtBare h
    → After (λ _. AtIdle) InOrder (open_device payload_size env h)
unfolding open_device
open_device-phase payload_size env h at_start = ground arith

reopen_device-phase :
    (payload_size : ℕ) (env : Env) (h : History)
    → AtIdle h
    → After (λ _. AtIdle) InOrder (open_device payload_size env h)
unfolding open_device
reopen_device-phase payload_size env h at_start = ground arith

fuzz_round-phase :
    (fd : ℤ) (env : Env) (h : History)
    → AtIdle h
    → After (λ _. AtIdle) InOrder (fuzz_round fd env h)
unfolding fuzz_round
fuzz_round-phase fd env h at_start = ground arith

-- Started by the loader for the first time, or again after the host has got back the last round, the
-- fuzzing program keeps to the fuzzing cycle for any number of rounds.
pub fuzzer_main-InOrder :
    (payload_size n : ℕ) (env : Env) (h : History)
    → AtBare h ⊎ AtIdle h
    → After (λ _. AtIdle) InOrder (fuzzer_main payload_size n env h)
unfolding fuzzer_main
fuzzer_main-InOrder payload_size n env h started =
    After-bind (λ _. AtIdle) (λ _. AtIdle) InOrder (open_device payload_size)
      (λ fd. repeat n (fuzz_round fd)) env h
      (elim started [
        | inl first ↦ open_device-phase payload_size env h first
        | inr again ↦ reopen_device-phase payload_size env h again
      ])
      (λ fd. After-repeat AtIdle InOrder (fuzz_round fd) env (fuzz_round-phase fd env) n)
