-- ===== src/Uefi/Agent/Laws.antt =====
-- What the UEFI agent library keeps: the handshake's conditions, the fuzzing cycle, and the
-- bounds of the payload buffer.
use kafl_targets.Base.{ℕ, ◌+◌, ◌^◌, ◌%◌, ◌≤◌, ◌≡◌, refl, [], arith, suc}
use kafl_targets.Machine.{
  Env, History, AbortStops, abort_final, under_final_abort, Ends, After, After-then, After-repeat,
  After-rounds, Returns, live,
}
use kafl_targets.Nyx.{HostConfig}
use kafl_targets.Handshake.{OnlyAgreed, persistent_config, submitted, answer, host}
use kafl_targets.Cycle.Trace.{Trace, IsRun, InOrder-refines}
use kafl_targets.Cycle.{idle, AtBare, AtIdle, InOrder, runs, HasRun}
use kafl_targets.Harness.{Harness, KeepsCycle, Completes}
use kafl_targets.Uefi.Agent.{
  payload_max_size, handshake, agent_init, agent_round, agent_run, align_up, uefi_main,
}

-- If the buffer of `payload_max_size` bytes and one page lies in the address space, the payload
-- buffer cut out of it is page-aligned and lies inside it.
align_up_bounds :
    (a : ℕ)
    → a + 0x1000 + payload_max_size ≤ 2 ^ 64
    → (a ≤ align_up a)
      × (align_up a % 0x1000 ≡ 0)
      × (align_up a + payload_max_size ≤ a + (payload_max_size + 0x1000))
unfolding align_up
align_up_bounds a fits = omega arith

handshake-final :
    (pn ks : ℕ) (env : Env) (h : History)
    → OnlyAgreed (abort_final env) payload_max_size h
    → Ends (OnlyAgreed (abort_final env) payload_max_size) (handshake pn ks (abort_final env) h)
unfolding handshake
handshake-final pn ks env h ok = ground arith

-- If an abort never returns, then from a history with this property, whatever the host's
-- configuration and wherever the agent is cut off, the handshake of `agent_init` submits only agent
-- configurations that answer a host configuration of the right magic, version and bitmap size, whose
-- payloads fit the buffer.
handshake-OnlyAgreed :
    (pn ks : ℕ) (env : Env) (h : History)
    → AbortStops env
    → OnlyAgreed env payload_max_size h
    → Ends (OnlyAgreed env payload_max_size) (handshake pn ks env h)
handshake-OnlyAgreed pn ks env h aborts =
    under_final_abort
      (λ e.
        OnlyAgreed e payload_max_size h
        → Ends (OnlyAgreed e payload_max_size) (handshake pn ks e h))
      env aborts (handshake-final pn ks env h)

handshake-phase :
    (pn ks : ℕ) (env : Env) (h : History)
    → AtBare h
    → After (λ _. AtBare) InOrder (handshake pn ks env h)
unfolding handshake
handshake-phase pn ks env h at_start = ground arith

handshake-runs :
    (env : Env) (k : ℕ) (h : History)
    → HasRun k h
    → Returns (λ _. HasRun k) (handshake 0 0 (live env) h)
unfolding handshake
handshake-runs env k h start = ground arith

module _ (harness : Harness) (env : Env) where
  agent_round-phase :
      KeepsCycle harness env
      → (h : History) → AtIdle h
      → After (λ _. AtIdle) InOrder (agent_round harness env h)
  unfolding agent_round
  agent_round-phase keeps h at_start = grind (arith, keeps.run_keeps)

  agent_run-phase :
      KeepsCycle harness env
      → (buffer n : ℕ) (h : History) → AtBare h
      → After (λ _. AtIdle) InOrder (agent_run harness buffer n env h)
  unfolding agent_run
  agent_run-phase keeps buffer n h at_start =
      grind
        (arith, After-repeat AtIdle InOrder (agent_round harness) env (agent_round-phase keeps) n)

  -- Linked with a target that leaves the fuzzing cycle to the agent, the UEFI program keeps to the
  -- cycle for any number of rounds: wherever it is cut off no call is out of order, and it completes
  -- each round in the idle phase.
  uefi_main-InOrder :
      (buffer n : ℕ)
      → KeepsCycle harness env
      → After (λ _. AtIdle) InOrder (uefi_main harness buffer n env [])
  unfolding uefi_main agent_init
  uefi_main-InOrder buffer n keeps =
      After-then AtBare (λ _. AtIdle) InOrder (agent_init harness 0 0) (agent_run harness buffer n)
        env []
        (After-then AtBare (λ _. AtBare) InOrder (handshake 0 0) harness.init env []
          (handshake-phase 0 0 env [] refl) keeps.init_keeps)
        (agent_run-phase keeps buffer n)

  -- Linked with a target that leaves the fuzzing cycle to the agent, the UEFI program refines the
  -- cycle as a transition system, for any number of rounds: its history is a run of the system wherever
  -- it is cut off, and a run to the idle phase when the rounds are completed.
  pub uefi_main-refines :
      (buffer n : ℕ)
      → KeepsCycle harness env
      → After (λ _ h. Trace h idle) IsRun (uefi_main harness buffer n env [])
  uefi_main-refines buffer n keeps =
      InOrder-refines (uefi_main harness buffer n env []) (uefi_main-InOrder buffer n keeps)

  agent_round-runs :
      Completes harness env
      → (k : ℕ) (h : History) → HasRun k h
      → Returns (λ _. HasRun (suc k)) (agent_round harness (live env) h)
  unfolding agent_round
  agent_round-runs completes k h so_far = grind (arith, completes.run_returns)

  -- Where every call comes back, and a run of the target comes back too, having entered the code under
  -- test once, the UEFI program completes any number of rounds of its endless loop, and the code has
  -- been entered exactly once in each.
  pub uefi_main-runs :
      (buffer n : ℕ)
      → Completes harness env
      → Returns (λ _ h'. runs h' ≡ n) (uefi_main harness buffer n (live env) [])
  unfolding uefi_main agent_init agent_run
  uefi_main-runs buffer n completes =
      After-then (HasRun 0) (λ _. HasRun n) (λ _. ⊥) (agent_init harness 0 0)
        (agent_run harness buffer n) (live env) []
        (After-then (HasRun 0) (λ _. HasRun 0) (λ _. ⊥) (handshake 0 0) harness.init (live env) []
          (handshake-runs env 0 [] refl) (completes.init_returns 0))
        (λ h q.
          After-rounds HasRun (λ _. ⊥) (agent_round harness) (live env) (agent_round-runs completes)
            n 0 n _ (omega arith) q)

-- `agent_init` is the handshake that Handshake specifies: if every call but an abort comes back,
-- it submits one agent configuration, a persistent one with the size of the host's bitmap, to a
-- host of the right magic and version whose payloads fit the buffer, and none to any other host.
pub handshake-answer :
    (panic_handler kasan_handler : ℕ) (c : HostConfig) (env : Env) (h : History)
    → Ends
        (λ h'. submitted h' ≡ answer payload_max_size persistent_config c (submitted h))
        (handshake panic_handler kasan_handler (host c env) h)
unfolding handshake
handshake-answer panic_handler kasan_handler c env h = ground arith
