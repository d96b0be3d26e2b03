-- ===== src/Linux/FsFuzzer/Laws.antt =====
-- The file system fuzzer: its handshake, and an error that it does not see.
use package.text.Mathlib.Text.{◌==◌ as str_eq}
use kafl_targets.Base.{◌≡◌, String, ◌∷◌, arith, if◌then◌else◌}
use kafl_targets.Base.Int.{ℤ}
use kafl_targets.Machine.{Env, libcall, perform, History, Event, call, int, str, Ends}
use kafl_targets.Nyx.{HostConfig}
use kafl_targets.Handshake.{OnlyAgreed, plain_config, submitted, answer, host}
use kafl_targets.Linux.FsFuzzer.{payload_max_size, agent_init, check_errno, mount_image}

-- From a history with this property, whatever the host's configuration, wherever the agent is cut
-- off, and even if an abort returns, `agent_init` submits only agent configurations that answer a
-- host configuration of the right magic, version and bitmap size, whose payloads fit the buffer.
fs_fuzzer_init-OnlyAgreed :
    (env : Env) (h : History)
    → OnlyAgreed env payload_max_size h
    → Ends (OnlyAgreed env payload_max_size) (agent_init env h)
unfolding agent_init
fs_fuzzer_init-OnlyAgreed env h ok = ground arith

-- The surroundings with another result of every LOOP_SET_CAPACITY.
abbrev override_capacity : ℤ → Event → ℤ → ℤ
override_capacity r (call name (int fd ∷ str request ∷ rest)) old =
    if str_eq request "LOOP_SET_CAPACITY" then r else old
override_capacity r _ old = old

abbrev with_capacity : ℤ → Env → Env
with_capacity r env = record env { result = λ h e. override_capacity r e (env.result h e) }

-- The result of LOOP_SET_CAPACITY is never looked at: whatever it is, failure too, the mount and
-- what follows it are the same.
mount_image-with_capacity :
    (r loopfd ret : ℤ) (fstype : String) (env : Env) (h : History)
    → mount_image loopfd ret fstype (with_capacity r env) h ≡ mount_image loopfd ret fstype env h
unfolding mount_image libcall check_errno perform
mount_image-with_capacity r loopfd ret fstype env h = ground arith

-- `agent_init` is the handshake that Handshake specifies: if every call but an abort comes back,
-- it submits one agent configuration, with the size of the host's bitmap, to a host of the right
-- magic and version whose payloads fit the buffer, and none to any other host.
pub fs_fuzzer_init-answer :
    (c : HostConfig) (env : Env) (h : History)
    → Ends
        (λ h'. submitted h' ≡ answer payload_max_size plain_config c (submitted h))
        (agent_init (host c env) h)
unfolding agent_init
fs_fuzzer_init-answer c env h = ground arith
