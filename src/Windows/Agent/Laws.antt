-- ===== src/Windows/Agent/Laws.antt =====
-- The handshake of the Windows agent, and the order of its calls.
use kafl_targets.Base.{ℕ, ◌≡◌, Bool, List, [], some, refl, arith}
use kafl_targets.Machine.{
  Env, History, AbortStops, abort_final, under_final_abort, Ends, After, After-bind, After-then,
  ◌>>◌,
}
use kafl_targets.Cycle.{AtBare, AtIdle, phase, idle, bare, InOrder}
use kafl_targets.Nyx.{HostConfig}
use kafl_targets.Handshake.{OnlyAgreed, persistent_config, submitted, answer, host}
use kafl_targets.Windows.Drivers.{Module, init_panic_handlers}
use kafl_targets.Windows.Drivers.Laws.{init_panic_handlers-phase, set_ip_range-phase}
use kafl_targets.Windows.Agent.{
  payload_max_size, init_agent_handshake, agent_main, open_driver, submit_memory, fuzz_once,
}

handshake-final :
    (env : Env) (h : History)
    → OnlyAgreed (abort_final env) payload_max_size h
    → Ends
        (OnlyAgreed (abort_final env) payload_max_size)
        (init_agent_handshake (abort_final env) h)
unfolding init_agent_handshake
handshake-final env h ok = ground arith

-- If an abort never returns, then from a history with this property, whatever the host's
-- configuration and wherever the agent is cut off, `init_agent_handshake` submits only agent
-- configurations that answer a host configuration of the right magic, version and bitmap size,
-- whose payloads fit the buffer.
init_agent_handshake-OnlyAgreed :
    (env : Env) (h : History)
    → AbortStops env
    → OnlyAgreed env payload_max_size h
    → Ends (OnlyAgreed env payload_max_size) (init_agent_handshake env h)
init_agent_handshake-OnlyAgreed env h aborts =
    under_final_abort
      (λ e.
        OnlyAgreed e payload_max_size h
        → Ends (OnlyAgreed e payload_max_size) (init_agent_handshake e h))
      env aborts (handshake-final env h)

handshake-phase :
    (env : Env) (h : History)
    → phase h ≡ some bare
    → After (λ _ h'. phase h' ≡ some bare) InOrder (init_agent_handshake env h)
unfolding init_agent_handshake
handshake-phase env h at_start = ground arith

open_driver-phase :
    (env : Env) (h : History)
    → phase h ≡ some bare
    → After (λ _ h'. phase h' ≡ some bare) InOrder (open_driver env h)
unfolding open_driver
open_driver-phase env h at_start = ground arith

submit_memory-phase :
    (fits : Bool) (modules : List Module) (buffer : ℕ) (env : Env) (h : History)
    → phase h ≡ some bare
    → After (λ _ h'. phase h' ≡ some idle) InOrder (submit_memory fits modules buffer env h)
unfolding submit_memory
submit_memory-phase fits modules buffer env h at_start =
    grind (arith, set_ip_range-phase fits modules env)

fuzz_once-phase :
    (env : Env) (h : History)
    → phase h ≡ some idle
    → After (λ _ h'. phase h' ≡ some idle) InOrder (fuzz_once env h)
unfolding fuzz_once
fuzz_once-phase env h at_start = ground arith

-- The Windows agent places its calls in the order of the fuzzing cycle: wherever it is cut off no
-- call is out of order, and it ends in the idle phase.
pub agent_main-InOrder :
    (fits : Bool) (modules : List Module) (env : Env)
    → After (λ _ h'. phase h' ≡ some idle) InOrder (agent_main fits modules env [])
unfolding agent_main
agent_main-InOrder fits modules env =
    After-bind (λ _. AtBare) (λ _. AtIdle) InOrder open_driver
      (λ buffer.
        init_agent_handshake
        >> (init_panic_handlers fits modules >> (submit_memory fits modules buffer >> fuzz_once)))
      env [] (open_driver-phase env [] refl)
      λ buffer h1 q1.
        let memory = submit_memory fits modules buffer in
        After-then AtBare (λ _. AtIdle) InOrder init_agent_handshake
          (init_panic_handlers fits modules >> (memory >> fuzz_once)) env h1
          (handshake-phase env h1 q1)
          λ h2 q2.
            After-then AtBare (λ _. AtIdle) InOrder (init_panic_handlers fits modules)
              (memory >> fuzz_once) env h2 (init_panic_handlers-phase fits modules env h2 q2)
              λ h3 q3.
                After-then AtIdle (λ _. AtIdle) InOrder memory fuzz_once env h3
                  (submit_memory-phase fits modules buffer env h3 q3) (fuzz_once-phase env)

-- `init_agent_handshake` is the handshake that Handshake specifies: if every call but an abort
-- comes back, it submits one agent configuration, a persistent one with the size of the host's
-- bitmap, to a host of the right magic and version whose payloads fit the buffer, and none to any
-- other host.
pub init_agent_handshake-answer :
    (c : HostConfig) (env : Env) (h : History)
    → Ends
        (λ h'. submitted h' ≡ answer payload_max_size persistent_config c (submitted h))
        (init_agent_handshake (host c env) h)
unfolding init_agent_handshake
init_agent_handshake-answer c env h = ground arith
