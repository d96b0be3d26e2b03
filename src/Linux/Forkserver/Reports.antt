-- ===== src/Linux/Forkserver/Reports.antt =====
-- What the fork server tells the host about its children, over any number of rounds.
use kafl_targets.Base.{
  ℕ, zero, suc, ⊤, ◌+◌, ◌≡◌, ◌==◌, Bool, false, not, List, [], ◌∷◌, length, arith, if◌then◌else◌,
}
use kafl_targets.Base.Int.{pos}
use kafl_targets.Nyx
use kafl_targets.Machine.{
  Env, History, M, skip, when, ◌>>◌, After, Returns, After-then, crashing, After-then_other,
  After-weaken,
}
use kafl_targets.Cycle.{runs}
use kafl_targets.Linux.Agent.Cpu.{nyx_cpu_v1}
use kafl_targets.Linux.Forkserver.{serve, snapshot_reload}
use kafl_targets.Linux.Forkserver.Round.{WaitStatus, errno_fail_on, sigvtalrm, asan_exit_code}
use kafl_targets.Linux.Forkserver.Laws.{placed}
use kafl_targets.Linux.Forkserver.Machine.{
  Ending, forked, child_round, parent_round, machine_round, machine_rounds,
}

-- A signal other than the timer's has ended the child.
abbrev pub is_crash : WaitStatus → Bool
is_crash status = if status.wifsignaled then not (status.wtermsig == sigvtalrm) else false

-- The sanitizer has ended the child.
abbrev pub is_asan : WaitStatus → Bool
is_asan status = if status.wifsignaled then false else status.wexitstatus == asan_exit_code

-- How many children have ended in this way.
abbrev pub count : (WaitStatus → Bool) → List Ending → ℕ
count p [] = 0
count p (ending ∷ more) = (if p ending.status then 1 else 0) + count p more

-- From `h` to `h'` there were `n` runs of the target, `k` PANICs and `m` KASANs.
abbrev pub Adds : ℕ → ℕ → ℕ → History → History → Type 0
Adds n k m h h' =
    (runs h' ≡ n + runs h)
    × (placed Nyx.panic h' ≡ k + placed Nyx.panic h)
    × (placed Nyx.kasan h' ≡ m + placed Nyx.kasan h)

module _ (depth : ℕ) (stdin_mode : Bool) (pid : ℕ) (env : Env) where
  child-Adds :
      (status : WaitStatus) (h : History)
      → After
          (λ _ _. ⊥)
          (Adds 1 0 0 h)
          (serve depth nyx_cpu_v1 stdin_mode
            (λ _. status)
            (suc zero)
            (forked (pos 0) (crashing env))
            h)
  unfolding serve errno_fail_on
  child-Adds status h = ground arith

  parent-Adds :
      (status : WaitStatus) (h : History)
      → After
          (λ _ _. ⊥)
          (Adds 0 (if is_crash status then 1 else 0) (if is_asan status then 1 else 0) h)
          (serve depth nyx_cpu_v1 stdin_mode
            (λ _. status)
            (suc zero)
            (forked (pos (suc pid)) (crashing env))
            h)
  unfolding serve
  parent-Adds status h = ground arith

  child_round-Adds :
      (ending : Ending) (h : History)
      → Returns
          (λ _. Adds 1 0 0 h)
          (child_round depth nyx_cpu_v1 stdin_mode ending (crashing env) h)
  unfolding child_round snapshot_reload
  child_round-Adds ending h =
      let round = serve depth nyx_cpu_v1 stdin_mode (λ _. ending.status) (suc zero) in
      After-then_other (Adds 1 0 0 h) (λ _. Adds 1 0 0 h) (λ _. ⊥)
        (round (forked (pos 0) (crashing env)) h)
        (when ending.exits (snapshot_reload depth nyx_cpu_v1)) (crashing env) h
        (child-Adds ending.status h) (λ h' one. ground arith)

  parent_round-Adds :
      (status : WaitStatus) (h : History)
      → Returns
          (λ _. Adds 0 (if is_crash status then 1 else 0) (if is_asan status then 1 else 0) h)
          (parent_round depth nyx_cpu_v1 stdin_mode pid status (crashing env) h)
  unfolding parent_round
  parent_round-Adds status h =
      let round = serve depth nyx_cpu_v1 stdin_mode (λ _. status) (suc zero) in
      let k : ℕ = if is_crash status then 1 else 0 in
      let m : ℕ = if is_asan status then 1 else 0 in
      After-then_other (Adds 0 k m h) (λ _. Adds 0 k m h) (λ _. ⊥)
        (round (forked (pos (suc pid)) (crashing env)) h) skip (crashing env) h
        (parent-Adds status h) (λ h' all. all)

  -- What the next part adds to what the first one has added.
  then-Adds :
      (n1 k1 m1 n2 k2 m2 n k m : ℕ) (first next : M ⊤) (h : History)
      → (n1 + n2 ≡ n) × (k1 + k2 ≡ k) × (m1 + m2 ≡ m)
      → Returns (λ _. Adds n1 k1 m1 h) (first (crashing env) h)
      → ((h' : History) → Returns (λ _. Adds n2 k2 m2 h') (next (crashing env) h'))
      → Returns (λ _. Adds n k m h) ((first >> next) (crashing env) h)
  then-Adds n1 k1 m1 n2 k2 m2 n k m first next h sums one two =
      After-then (Adds n1 k1 m1 h) (λ _. Adds n k m h) (λ _. ⊥) first next (crashing env) h one
        λ h' begun.
          After-weaken (λ _. Adds n2 k2 m2 h') (λ _. Adds n k m h) (λ _. ⊥) (next (crashing env) h')
            (two h')
            (λ _ h'' rest. (
              omega (arith, begun.0, rest.0, sums.0),
              omega (arith, begun.1, rest.1, sums.1),
              omega (arith, begun.2, rest.2, sums.2),
            ))

  -- On a version 1 CPU, if the target ends its process in every round and every other call comes back,
  -- then over any number of rounds the fork server runs the target once for each child, and tells
  -- the host what has become of it: it places a PANIC for each child that a signal other than the
  -- timer's has ended, a KASAN for each that has left with the exit code of the sanitizer, and no
  -- other PANIC or KASAN, whether or not the children run their exit handler.
  pub machine_rounds-Adds :
      (endings : List Ending) (h : History)
      → Returns
          (λ _. Adds (length endings) (count is_crash endings) (count is_asan endings) h)
          (machine_rounds depth nyx_cpu_v1 stdin_mode pid endings (crashing env) h)
  unfolding machine_rounds machine_round
  machine_rounds-Adds [] h = (omega arith, omega arith, omega arith)
  machine_rounds-Adds (ending ∷ more) h =
      let k : ℕ = if is_crash ending.status then 1 else 0 in
      let m : ℕ = if is_asan ending.status then 1 else 0 in
      then-Adds 1 k m (length more) (count is_crash more) (count is_asan more) _ _ _
        (machine_round depth nyx_cpu_v1 stdin_mode pid ending)
        (machine_rounds depth nyx_cpu_v1 stdin_mode pid more) h
        (omega arith, omega arith, omega arith)
        (then-Adds 1 0 0 0 k m 1 k m (child_round depth nyx_cpu_v1 stdin_mode ending)
          (parent_round depth nyx_cpu_v1 stdin_mode pid ending.status) h
          (omega arith, omega arith, omega arith) (child_round-Adds ending h)
          (parent_round-Adds ending.status))
        (machine_rounds-Adds more)
