-- ===== src/Linux/Forkserver/Machine.antt =====
-- The fork server and its children on one machine: `fork` continues `serve` in two processes, of which
-- the parent waits for its child to end.
use package.text.Mathlib.Text.{◌==◌ as str_eq}
use kafl_targets.Base.{
  ℕ, zero, suc, ⊤, ◌≡◌, Bool, false, String, Option, List, [], ◌∷◌, arith, if◌then◌else◌,
}
use kafl_targets.Base.Int.{ℤ, pos}
use kafl_targets.Machine.{
  Env, Event, vmcall, call, target, History, M, skip, when, After, After-then, then_other, crashing,
  After-then_other, ◌>>◌,
}
use kafl_targets.Cycle.{AtIdle, AtRunning, InOrder}
use kafl_targets.Linux.Agent.Cpu.{CpuType, nyx_cpu_v1}
use kafl_targets.Linux.Forkserver.{serve, prepare, snapshot_reload}
use kafl_targets.Linux.Forkserver.Round.{WaitStatus, errno_fail_on}
use kafl_targets.Linux.Forkserver.Prepare.{prepare-InOrder}

-- What `fork` returns tells the process which one it is.
abbrev fork_result : ℤ → Event → ℤ → ℤ
fork_result pid (call name args) z = if str_eq name "fork" then pid else z
fork_result pid (vmcall id a) z = z
fork_result pid (target p) z = z

abbrev pub forked : ℤ → Env → Env
forked pid env = record env { result = λ h e. fork_result pid e (env.result h e) }

-- How a child ends: its status, and whether it calls `exit`, which runs its exit handlers; a signal
-- and `_exit` do not.
pub record Ending : Type 0 where
  pub status : WaitStatus
  pub exits : Bool

-- A round of a child: what it does of the loop up to its end, and its exit handler.
unfoldable pub child_round : ℕ → CpuType → Bool → Ending → M ⊤
unfolding snapshot_reload
child_round depth cpu stdin_mode ending env h =
    let round = serve depth cpu stdin_mode (λ _. ending.status) (suc zero) in
    then_other (round (forked (pos 0) env) h) (when ending.exits (snapshot_reload depth cpu)) env h

-- Its parent's round.
unfoldable pub parent_round : ℕ → CpuType → Bool → ℕ → WaitStatus → M ⊤
parent_round depth cpu stdin_mode pid status env h =
    let round = serve depth cpu stdin_mode (λ _. status) (suc zero) in
    then_other (round (forked (pos (suc pid)) env) h) skip env h

-- A round of the loop on the machine. The child's status is known when it has ended; if its exit
-- handler does not come back, neither does the machine.
unfoldable pub machine_round : ℕ → CpuType → Bool → ℕ → Ending → M ⊤
machine_round depth cpu stdin_mode pid ending =
    child_round depth cpu stdin_mode ending >> parent_round depth cpu stdin_mode pid ending.status

-- A round for each child that is waited for.
unfoldable pub machine_rounds : ℕ → CpuType → Bool → ℕ → List Ending → M ⊤
machine_rounds depth cpu stdin_mode pid [] = skip
machine_rounds depth cpu stdin_mode pid (ending ∷ more) =
    machine_round depth cpu stdin_mode pid ending >> machine_rounds depth cpu stdin_mode pid more

-- No child runs its exit handler.
abbrev pub NoneExits : List Ending → Type 0
NoneExits [] = Unit
NoneExits (ending ∷ more) = (ending.exits ≡ false) × NoneExits more

module _ (depth : ℕ) (stdin_mode : Bool) (pid : ℕ) (env : Env) where
  child-crashes :
      (status : WaitStatus) (h : History)
      → AtIdle h
      → After
          (λ _ _. ⊥)
          AtRunning
          (serve depth nyx_cpu_v1 stdin_mode
            (λ _. status)
            (suc zero)
            (forked (pos 0) (crashing env))
            h)
  unfolding serve errno_fail_on
  child-crashes status h at_start = ground arith

  child_round-phase :
      (ending : Ending) (h : History)
      → ending.exits ≡ false
      → AtIdle h
      → After
          (λ _. AtRunning)
          InOrder
          (child_round depth nyx_cpu_v1 stdin_mode ending (crashing env) h)
  unfolding child_round
  child_round-phase ending h killed at_start =
      let round = serve depth nyx_cpu_v1 stdin_mode (λ _. ending.status) (suc zero) in
      rw killed (
        After-then_other AtRunning (λ _. AtRunning) InOrder
          (round (forked (pos 0) (crashing env)) h) skip (crashing env) h
          (child-crashes ending.status h at_start) (λ h' running. running))

  parent-reports :
      (status : WaitStatus) (h : History)
      → AtRunning h
      → After
          (λ _ _. ⊥)
          AtIdle
          (serve depth nyx_cpu_v1 stdin_mode
            (λ _. status)
            (suc zero)
            (forked (pos (suc pid)) (crashing env))
            h)
  unfolding serve
  parent-reports status h running = ground arith

  parent_round-phase :
      (status : WaitStatus) (h : History)
      → AtRunning h
      → After
          (λ _. AtIdle)
          InOrder
          (parent_round depth nyx_cpu_v1 stdin_mode pid status (crashing env) h)
  unfolding parent_round
  parent_round-phase status h running =
      let round = serve depth nyx_cpu_v1 stdin_mode (λ _. status) (suc zero) in
      After-then_other AtIdle (λ _. AtIdle) InOrder
        (round (forked (pos (suc pid)) (crashing env)) h) skip (crashing env) h
        (parent-reports status h running) (λ h' idle. idle)

  machine_rounds-phase :
      (endings : List Ending) (h : History)
      → NoneExits endings
      → AtIdle h
      → After
          (λ _. AtIdle)
          InOrder
          (machine_rounds depth nyx_cpu_v1 stdin_mode pid endings (crashing env) h)
  unfolding machine_rounds machine_round
  machine_rounds-phase [] h none at_start = at_start
  machine_rounds-phase (ending ∷ more) h killed at_start =
      let parent = parent_round depth nyx_cpu_v1 stdin_mode pid ending.status in
      After-then AtIdle (λ _. AtIdle) InOrder (machine_round depth nyx_cpu_v1 stdin_mode pid ending)
        (machine_rounds depth nyx_cpu_v1 stdin_mode pid more) (crashing env) h
        (After-then AtRunning (λ _. AtIdle) InOrder (child_round depth nyx_cpu_v1 stdin_mode ending)
          parent (crashing env) h (child_round-phase ending h killed.0 at_start)
          (parent_round-phase ending.status))
        (λ h' idle. machine_rounds-phase more h' killed.1 idle)

  -- On a version 1 CPU, if in every round the target ends its process by a signal or by `_exit`, so
  -- that no exit handler runs, and every other call comes back, the fork server, from its start, and
  -- its children keep to the fuzzing cycle on their machine, for any sequence of statuses with which
  -- the children end: the parent's report closes the round that its child has opened.
  pub machine_rounds-InOrder :
      (scan : String → Option (ℕ × ℕ × String)) (matches : String → Bool) (lines : List String)
      (endings : List Ending)
      → NoneExits endings
      → After
          (λ _. AtIdle)
          InOrder
          ((prepare depth nyx_cpu_v1 scan matches lines stdin_mode
              >> machine_rounds depth nyx_cpu_v1 stdin_mode pid endings)
            (crashing env)
            [])
  machine_rounds-InOrder scan matches lines endings killed =
      After-then AtIdle (λ _. AtIdle) InOrder
        (prepare depth nyx_cpu_v1 scan matches lines stdin_mode)
        (machine_rounds depth nyx_cpu_v1 stdin_mode pid endings) (crashing env) []
        (prepare-InOrder depth scan matches (crashing env) lines stdin_mode)
        (λ h idle. machine_rounds-phase endings h killed idle)
