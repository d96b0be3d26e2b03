-- ===== src/Linux/Forkserver/Order.antt =====
-- The order of the calls of the fork server's child.
use kafl_targets.Base.{ℕ, Bool, arith}
use kafl_targets.Machine.{Env, History, After, After-then, ◌>>◌}
use kafl_targets.Cycle.{AtIdle, AtRunning, InOrder}
use kafl_targets.Linux.Agent.Cpu.{nyx_cpu_v1}
use kafl_targets.Linux.Forkserver.{snapshot_reload}
use kafl_targets.Linux.Forkserver.Round.{child, errno_fail_on}

child-phase :
    (stdin_mode : Bool) (env : Env) (h : History)
    → AtIdle h
    → After (λ _. AtRunning) InOrder (child stdin_mode env h)
unfolding child errno_fail_on
child-phase stdin_mode env h at_start = ground arith

-- On a version 1 CPU, the child of a round keeps to the fuzzing cycle: from the idle phase it takes
-- the payload before it runs the target, and if it ends by itself its exit handler gives the round
-- back. Wherever it is cut off no call is out of order.
child_exit-InOrder :
    (depth : ℕ) (stdin_mode : Bool) (env : Env) (h : History)
    → AtIdle h
    → After (λ _. AtIdle) InOrder ((child stdin_mode >> snapshot_reload depth nyx_cpu_v1) env h)
unfolding snapshot_reload
child_exit-InOrder depth stdin_mode env h at_start =
    After-then AtRunning (λ _. AtIdle) InOrder (child stdin_mode) (snapshot_reload depth nyx_cpu_v1)
      env h (child-phase stdin_mode env h at_start) (λ h' running. ground arith)
