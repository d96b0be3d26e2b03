-- ===== src/Zephyr/Agent/Laws.antt =====
-- What the Zephyr agent keeps: the handshake's conditions, the fuzzing cycle, and the reports of
-- fatal errors.
use kafl_targets.Base.{ℕ, suc, ⊤, ◌≡◌, refl, some, [], arith}
use kafl_targets.Machine.{
  Env, History, AbortStops, abort_final, under_final_abort, Ends, Ends-then, After, After-then,
  After-repeat, After-rounds, Returns, M, live, ◌>>◌, repeat,
}
use kafl_targets.Nyx.{HostConfig}
use kafl_targets.Handshake.{OnlyAgreed, persistent_config, submitted, answer, host}
use kafl_targets.Cycle.{AtBare, AtIdle, phase, bare, InOrder, runs, HasRun}
use kafl_targets.Harness.{Harness, KeepsIdle, Completes}
use kafl_targets.Zephyr.Agent.{
  submit_buffer, payload_max_size, greet, negotiate, agent_init, set_up, agent_round, agent_run,
  hello, zephyr_main,
}

abbrev Agreed : Env → History → Type 0
Agreed env = OnlyAgreed env payload_max_size

greet-Agreed :
    (pn ks : ℕ) (env : Env) (h : History) → Agreed env h → Ends (Agreed env) (greet pn ks env h)
unfolding greet
greet-Agreed pn ks env h ok = ground arith

negotiate-Agreed :
    (env : Env) (h : History)
    → Agreed (abort_final env) h
    → Ends (Agreed (abort_final env)) (negotiate (abort_final env) h)
unfolding negotiate
negotiate-Agreed env h ok = ground arith

-- If an abort never returns, then from a history with this property, whatever the host's
-- configuration and wherever the agent is cut off, `agent_init` submits only agent configurations
-- that answer a host configuration of the right magic, version and bitmap size, whose payloads fit
-- the buffer.
zephyr_init-OnlyAgreed :
    (pn ks : ℕ) (env : Env) (h : History)
    → AbortStops env
    → OnlyAgreed env payload_max_size h
    → Ends (OnlyAgreed env payload_max_size) (agent_init pn ks env h)
unfolding agent_init
zephyr_init-OnlyAgreed pn ks env h aborts =
    under_final_abort (λ e. Agreed e h → Ends (Agreed e) ((greet pn ks >> negotiate) e h)) env
      aborts
      λ ok.
        Ends-then (Agreed (abort_final env)) (greet pn ks) negotiate (abort_final env) h
          (greet-Agreed pn ks (abort_final env) h ok) (negotiate-Agreed env)

hello-phase : (env : Env) → After (λ _ h'. phase h' ≡ some bare) InOrder (hello env [])
unfolding hello
hello-phase env = ground arith

greet-phase :
    (pn ks : ℕ) (env : Env) (h : History)
    → phase h ≡ some bare
    → After (λ _ h'. phase h' ≡ some bare) InOrder (greet pn ks env h)
unfolding greet
greet-phase pn ks env h at_start = ground arith

negotiate-phase :
    (env : Env) (h : History)
    → phase h ≡ some bare
    → After (λ _ h'. phase h' ≡ some bare) InOrder (negotiate env h)
unfolding negotiate
negotiate-phase env h at_start = ground arith

submit_buffer-phase :
    (buffer : ℕ) (env : Env) (h : History)
    → AtBare h
    → After (λ _. AtIdle) InOrder (submit_buffer buffer env h)
unfolding submit_buffer
submit_buffer-phase buffer env h at_start = ground arith

hello-runs : (env : Env) → Returns (λ _. HasRun 0) (hello (live env) [])
unfolding hello
hello-runs env = refl

greet-runs :
    (env : Env) (h : History) → HasRun 0 h → Returns (λ _. HasRun 0) (greet 0 0 (live env) h)
unfolding greet
greet-runs env h start = start

negotiate-runs :
    (env : Env) (h : History) → HasRun 0 h → Returns (λ _. HasRun 0) (negotiate (live env) h)
unfolding negotiate
negotiate-runs env h start = ground arith

submit_buffer-runs :
    (buffer : ℕ) (env : Env) (h : History)
    → HasRun 0 h
    → Returns (λ _. HasRun 0) (submit_buffer buffer (live env) h)
unfolding submit_buffer
submit_buffer-runs buffer env h start = start

module _ (harness : Harness) (env : Env) where
  set_up-phase :
      KeepsIdle harness env
      → (buffer : ℕ) (h : History) → AtBare h
      → After (λ _. AtIdle) InOrder (set_up harness buffer env h)
  unfolding set_up
  set_up-phase keeps buffer h at_start = grind (arith, submit_buffer-phase buffer, keeps.init_idle)

  agent_round-phase :
      KeepsIdle harness env
      → (h : History) → AtIdle h
      → After (λ _. AtIdle) InOrder (agent_round harness env h)
  unfolding agent_round
  agent_round-phase keeps h at_start = grind (arith, keeps.run_idle)

  -- Linked with a target that leaves the fuzzing cycle to the agent, the Zephyr program keeps to the
  -- cycle for any number of rounds: wherever it is cut off no call is out of order, and it completes
  -- each round in the idle phase.
  pub zephyr_main-InOrder :
      (buffer n : ℕ)
      → KeepsIdle harness env
      → After (λ _. AtIdle) InOrder (zephyr_main harness buffer n env [])
  unfolding zephyr_main agent_run
  zephyr_main-InOrder buffer n keeps =
      After-then AtBare (λ _. AtIdle) InOrder hello (agent_init 0 0 >> agent_run harness buffer n)
        env [] (hello-phase env)
        λ h1 q1.
          After-then AtBare (λ _. AtIdle) InOrder (agent_init 0 0) (agent_run harness buffer n) env
            h1
            (After-then AtBare (λ _. AtBare) InOrder (greet 0 0) negotiate env h1
              (greet-phase 0 0 env h1 q1) (negotiate-phase env))
            λ h2 q2.
              After-then AtIdle (λ _. AtIdle) InOrder (set_up harness buffer)
                (repeat n (agent_round harness)) env h2 (set_up-phase keeps buffer h2 q2)
                (After-repeat AtIdle InOrder (agent_round harness) env (agent_round-phase keeps) n)

  set_up-runs :
      Completes harness env
      → (buffer : ℕ) (h : History) → HasRun 0 h
      → Returns (λ _. HasRun 0) (set_up harness buffer (live env) h)
  unfolding set_up
  set_up-runs completes buffer h start =
      grind (arith, submit_buffer-runs buffer env, completes.init_returns 0)

  agent_round-runs :
      Completes harness env
      → (k : ℕ) (h : History) → HasRun k h
      → Returns (λ _. HasRun (suc k)) (agent_round harness (live env) h)
  unfolding agent_round
  agent_round-runs completes k h so_far = grind (arith, completes.run_returns)

  -- Where every call comes back and the target comes back too, the Zephyr program completes any number
  -- of rounds of its endless loop, and has run the target exactly once in each.
  zephyr_main-runs :
      (buffer n : ℕ)
      → Completes harness env
      → Returns (λ _ h'. runs h' ≡ n) (zephyr_main harness buffer n (live env) [])
  unfolding zephyr_main agent_run
  zephyr_main-runs buffer n completes =
      seq hello (agent_init 0 0 >> agent_run harness buffer n) [] (hello-runs env) λ h1 q1.
        seq (agent_init 0 0) (agent_run harness buffer n) h1
          (After-then (HasRun 0) (λ _. HasRun 0) (λ _. ⊥) (greet 0 0) negotiate (live env) h1
            (greet-runs env h1 q1) (negotiate-runs env))
          λ h2 q2.
            seq (set_up harness buffer) (repeat n (agent_round harness)) h2
              (set_up-runs completes buffer h2 q2)
              λ h3 q3.
                After-rounds HasRun (λ _. ⊥) (agent_round harness) (live env)
                  (agent_round-runs completes) n 0 n h3 (omega arith) q3
    where
      seq :
          (m k : M ⊤) (h : History)
          → Returns (λ _. HasRun 0) (m (live env) h)
          → ((h' : History) → HasRun 0 h' → Returns (λ _. HasRun n) (k (live env) h'))
          → Returns (λ _. HasRun n) ((m >> k) (live env) h)
      seq m k h = After-then (HasRun 0) (λ _. HasRun n) (λ _. ⊥) m k (live env) h

-- `agent_init` is the handshake that Handshake specifies: if every call but an abort comes back,
-- it submits one agent configuration, a persistent one with the size of the host's bitmap, to a
-- host of the right magic and version whose payloads fit the buffer, and none to any other host.
pub zephyr_init-answer :
    (panic_handler kasan_handler : ℕ) (c : HostConfig) (env : Env) (h : History)
    → Ends
        (λ h'. submitted h' ≡ answer payload_max_size persistent_config c (submitted h))
        (agent_init panic_handler kasan_handler (host c env) h)
unfolding agent_init greet negotiate
zephyr_init-answer panic_handler kasan_handler c env h = ground arith
