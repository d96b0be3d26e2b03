-- ===== src/Uefi/Dxe/Laws.antt =====
-- What the DXE harness keeps: the handshake's conditions and the fuzzing cycle.
use kafl_targets.Base.{ℕ, Bool, false, ◌≡◌, some, arith, suc}
use kafl_targets.Machine.{
  Env, History, Event, AbortStops, abort_final, under_final_abort, Ends, After, After-repeat,
  After-rounds, Returns, live,
}
use kafl_targets.Nyx.{HostConfig}
use kafl_targets.Handshake.{OnlyAgreed, persistent_config, submitted, answer, host}
use kafl_targets.Cycle.{phase, bare, AtBare, AtIdle, InOrder, HasRun}
use kafl_targets.Harness.{Harness, KeepsCycle, Completes}
use kafl_targets.Uefi.Dxe.{payload_max_size, harness_init, harness_round, harness_run, initialize}

harness_init-final :
    (pn ks : ℕ) (env : Env) (h : History)
    → OnlyAgreed (abort_final env) payload_max_size h
    → Ends (OnlyAgreed (abort_final env) payload_max_size) (harness_init pn ks (abort_final env) h)
unfolding harness_init
harness_init-final pn ks env h ok = ground arith

-- If an abort never returns, then from a history with this property, whatever the host's
-- configuration and wherever the agent is cut off, `HarnessInit` submits only agent configurations
-- that answer a host configuration of the right magic, version and bitmap size, whose payloads fit
-- the buffer.
harness_init-OnlyAgreed :
    (pn ks : ℕ) (env : Env) (h : History)
    → AbortStops env
    → OnlyAgreed env payload_max_size h
    → Ends (OnlyAgreed env payload_max_size) (harness_init pn ks env h)
harness_init-OnlyAgreed pn ks env h aborts =
    under_final_abort
      (λ e.
        OnlyAgreed e payload_max_size h
        → Ends (OnlyAgreed e payload_max_size) (harness_init pn ks e h))
      env aborts (harness_init-final pn ks env h)

pub initialize-phase :
    (efi_error : ℕ → Bool) (env : Env) (h : History)
    → phase h ≡ some bare
    → After (λ _ h'. phase h' ≡ some bare) InOrder (initialize efi_error env h)
unfolding initialize
initialize-phase efi_error env h at_start = ground arith

pub initialize-runs :
    (efi_error : ℕ → Bool) (env : Env) (h : History)
    → ((h : History) (e : Event) → efi_error (env.rax h e) ≡ false)
    → HasRun 0 h
    → Returns (λ _. HasRun 0) (initialize efi_error (live env) h)
unfolding initialize
initialize-runs efi_error env h installed start = grind (arith, installed)

module _ (harness : Harness) (env : Env) where
  harness_round-phase :
      KeepsCycle harness env
      → (h : History) → AtIdle h
      → After (λ _. AtIdle) InOrder (harness_round harness env h)
  unfolding harness_round
  harness_round-phase keeps h at_start = grind (arith, keeps.run_keeps)

  pub harness_run-phase :
      KeepsCycle harness env
      → (buffer n : ℕ) (h : History) → AtBare h
      → After (λ _. AtIdle) InOrder (harness_run harness buffer n env h)
  unfolding harness_run
  harness_run-phase keeps buffer n h at_start =
      grind (
        arith,
        After-repeat AtIdle InOrder (harness_round harness) env (harness_round-phase keeps) n,
      )

  harness_round-runs :
      Completes harness env
      → (k : ℕ) (h : History) → HasRun k h
      → Returns (λ _. HasRun (suc k)) (harness_round harness (live env) h)
  unfolding harness_round
  harness_round-runs completes k h so_far = grind (arith, completes.run_returns)

  pub harness_run-runs :
      Completes harness env
      → (buffer n : ℕ) (h : History) → HasRun 0 h
      → Returns (λ _. HasRun n) (harness_run harness buffer n (live env) h)
  unfolding harness_run
  harness_run-runs completes buffer n h start =
      After-rounds HasRun (λ _. ⊥) (harness_round harness) (live env) (harness_round-runs completes)
        n 0 n _ (omega arith) start

-- `HarnessInit` is the handshake that Handshake specifies: if every call but an abort comes back,
-- it submits one agent configuration, a persistent one with the size of the host's bitmap, to a
-- host of the right magic and version whose payloads fit the buffer, and none to any other host.
pub harness_init-answer :
    (panic_handler kasan_handler : ℕ) (c : HostConfig) (env : Env) (h : History)
    → Ends
        (λ h'. submitted h' ≡ answer payload_max_size persistent_config c (submitted h))
        (harness_init panic_handler kasan_handler (host c env) h)
unfolding harness_init
harness_init-answer panic_handler kasan_handler c env h = ground arith
