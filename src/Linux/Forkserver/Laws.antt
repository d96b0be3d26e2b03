-- ===== src/Linux/Forkserver/Laws.antt =====
-- The fork server: its handshake, the ranges that it submits, and its reports.
use kafl_targets.Base.{
  ℕ, suc, ◌+◌, ◌≡◌, ◌≢◌, ◌↔◌, Bool, true, false, Option, List, [], ◌∷◌, String, arith, ◌==◌,
  if◌then◌else◌,
}
use kafl_targets.Nyx
use kafl_targets.Machine.{Env, History, vmcall, range_ptr, Ends, After, Returns, live}
use kafl_targets.Nyx.{HostConfig}
use kafl_targets.Handshake.{OnlyAgreed, traced_config, submitted, answer, host}
use kafl_targets.Linux.Agent.Cpu.{nyx_cpu_v1}
use kafl_targets.Linux.Forkserver.{payload_max_size, agent_init, range_loop}
use kafl_targets.Linux.Forkserver.Round.{WaitStatus, report, sigvtalrm, asan_exit_code}

-- From a history with this property, whatever the host's configuration, wherever the agent is cut
-- off, and even if an abort returns, `agent_init` submits only agent configurations that answer a
-- host configuration of the right magic, version and bitmap size, whose payloads fit the buffer.
forkserver_init-OnlyAgreed :
    (env : Env) (h : History)
    → OnlyAgreed env payload_max_size h
    → Ends (OnlyAgreed env payload_max_size) (agent_init env h)
unfolding agent_init
forkserver_init-OnlyAgreed env h ok = ground arith

-- How often a hypercall has been placed.
abbrev pub placed : ℕ → History → ℕ
placed id [] = 0
placed id (vmcall i a ∷ h) = (if i == id then 1 else 0) + placed id h
placed id (_ ∷ h) = placed id h

-- After a child has ended, and where every call comes back, the parent reports a PANIC exactly if a
-- signal other than the timer's ended it, a KASAN exactly if it was no signal and the exit code is
-- that of the sanitizer, and gives the round back with one RELEASE in every case.
report_iff :
    (status : WaitStatus) (env : Env) (h : History)
    → Returns
        (λ _ h'.
          ((placed Nyx.panic h' ≡ suc (placed Nyx.panic h))
            ↔ ((status.wifsignaled ≡ true) × (status.wtermsig ≢ sigvtalrm)))
          × ((placed Nyx.kasan h' ≡ suc (placed Nyx.kasan h))
              ↔ ((status.wifsignaled ≡ false) × (status.wexitstatus ≡ asan_exit_code)))
          × (placed Nyx.release h' ≡ suc (placed Nyx.release h)))
        (report status (live env) h)
unfolding report
report_iff status env h = ground arith

-- The ranges of the history, and that each carries the number of those before it.
abbrev pub ranges : History → ℕ
ranges [] = 0
ranges (vmcall id (range_ptr start end range_id) ∷ h) = suc (ranges h)
ranges (_ ∷ h) = ranges h

abbrev pub Numbered : History → Type 0
Numbered [] = Unit
Numbered (vmcall id (range_ptr start end range_id) ∷ h) = (range_id ≡ ranges h) × Numbered h
Numbered (_ ∷ h) = Numbered h

module _ (depth : ℕ) (scan : String → Option (ℕ × ℕ × String)) (matches : String → Bool)
    (env : Env) where
  -- On a version 1 CPU, from a history whose ranges are numbered from 0 without a gap, with
  -- `region` their count, the loop of `detectranges` keeps them numbered so, also if it is cut off,
  -- and returns how many there are.
  pub range_loop-Numbered :
      (lines : List String) (region : ℕ) (h : History)
      → Numbered h
      → region ≡ ranges h
      → After
          (λ n h'. Numbered h' × (n ≡ ranges h'))
          Numbered
          (range_loop depth nyx_cpu_v1 scan matches lines region env h)
  unfolding range_loop
  range_loop-Numbered [] region h ok count = (ok, count)
  range_loop-Numbered (line ∷ lines) region h ok count = grind (arith, range_loop-Numbered lines)

-- `agent_init` is the handshake that Handshake specifies: if every call but an abort comes back,
-- it submits one agent configuration, with the size of the host's bitmap and dummy addresses of
-- trace buffers, to a host of the right magic and version whose payloads fit the buffer, and none
-- to any other host.
pub forkserver_init-answer :
    (c : HostConfig) (env : Env) (h : History)
    → Ends
        (λ h'. submitted h' ≡ answer payload_max_size traced_config c (submitted h))
        (agent_init (host c env) h)
unfolding agent_init
forkserver_init-answer c env h = ground arith
