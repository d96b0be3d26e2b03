-- ===== src/Linux/Agent/Host/Laws.antt =====
-- What check_host_magic decides.
use kafl_targets.Base.{ℕ, ◌≡◌, ◌↔◌, arith}
use kafl_targets.Base.Int.{pos}
use kafl_targets.Nyx.{nyx_host_magic, nyx_host_version}
use kafl_targets.Machine.{Env, History, After}
use kafl_targets.Linux.Agent.Cpu.{nyx_cpu_v1}
use kafl_targets.Linux.Agent.Host.{check_host_magic}

-- On a version 1 CPU, if the host answers, `check_host_magic` returns 0 exactly for a host
-- configuration of the right magic and version.
check_host_magic_iff :
    (depth : ℕ) (env : Env) (h : History)
    → After
        (λ ret h'. (ret ≡ pos 0) ↔ (
          ((env.host_config h').host_magic ≡ nyx_host_magic)
          × ((env.host_config h').host_version ≡ nyx_host_version)))
        (λ _. Unit {0})
        (check_host_magic depth nyx_cpu_v1 env h)
unfolding check_host_magic
check_host_magic_iff depth env h = ground arith
