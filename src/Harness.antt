-- ===== src/Harness.antt =====
-- What an agent is linked with: the initialisation of a target, and a run of the target on a
-- payload; and what an agent relies on there.
use kafl_targets.Base.{ℕ, suc, ⊤, ◌∷◌, ap, arith, ◌-◌, ◌^◌}
use kafl_targets.Base.Int.{pos, negsuc}
use kafl_targets.Nyx.{Payload}
use kafl_targets.Machine.{M, ◌>>◌, perform, target, Env, History, After, Returns, live}
use kafl_targets.Cycle.{AtBare, AtIdle, AtRunning, InOrder, HasRun}

pub record Harness : Type 0 where
  pub init : M ⊤
  pub run : Payload → M ⊤

-- The code under test on a payload, entered here.
unfoldable pub under_test : Payload → M ⊤ → M ⊤
unfolding perform
under_test p code = perform (target p) >> code

-- The signed 32-bit size of a payload as an unsigned number of `w` bits.
abbrev pub length_of : ℕ → Payload → ℕ
length_of w p = elim p.size [ pos n ↦ n | negsuc n ↦ 2 ^ w - n - 1 ]

-- The target leaves the fuzzing cycle to the agent.
pub record KeepsCycle (harness : Harness) (env : Env) : Type 0 where
  pub init_keeps : (h : History) → AtBare h → After (λ _. AtBare) InOrder (harness.init env h)
  pub run_keeps :
      (p : Payload) (h : History)
      → AtRunning h
      → After (λ _. AtRunning) InOrder (harness.run p env h)

-- The same for a target that is initialised after the payload buffer is known.
pub record KeepsIdle (harness : Harness) (env : Env) : Type 0 where
  pub init_idle : (h : History) → AtIdle h → After (λ _. AtIdle) InOrder (harness.init env h)
  pub run_idle :
      (p : Payload) (h : History)
      → AtRunning h
      → After (λ _. AtRunning) InOrder (harness.run p env h)

-- Where every call comes back, the target comes back, and has run once.
pub record Completes (harness : Harness) (env : Env) : Type 0 where
  pub init_returns :
      (k : ℕ) (h : History) → HasRun k h → Returns (λ _. HasRun k) (harness.init (live env) h)
  pub run_returns :
      (p : Payload) (k : ℕ) (h : History)
      → HasRun k h
      → Returns (λ _. HasRun (suc k)) (harness.run p (live env) h)

-- The code under test, entered in a round, leaves the cycle as the code does.
pub under_test-phase :
    (p : Payload) (code : M ⊤) (env : Env)
    → ((h : History) → AtRunning h → After (λ _. AtRunning) InOrder (code env h))
    → (h : History) → AtRunning h
    → After (λ _. AtRunning) InOrder (under_test p code env h)
unfolding under_test perform
under_test-phase p code env keeps h running = grind (arith, keeps)

-- Code that starts no run of its own has run once when it has been entered.
pub under_test-runs :
    (p : Payload) (code : M ⊤) (env : Env) (k : ℕ)
    → ((h : History) → HasRun (suc k) h → Returns (λ _. HasRun (suc k)) (code (live env) h))
    → (h : History) → HasRun k h
    → Returns (λ _. HasRun (suc k)) (under_test p code (live env) h)
unfolding under_test perform
under_test-runs p code env k keeps h so_far = keeps (target p ∷ h) (ap suc so_far)
