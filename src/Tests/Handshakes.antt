-- ===== src/Tests/Handshakes.antt =====
-- The handshakes of the agents with a host that they accept, and with one whose payloads are too large.
use kafl_targets.Base.{◌≡◌, []}
use kafl_targets.Nyx.{HostConfig}
use kafl_targets.Machine.{Ends}
use kafl_targets.Handshake.{persistent_config, traced_config, plain_config, submitted, answer, host}
use kafl_targets.Linux.Forkserver.{
  agent_init as forkserver_init, payload_max_size as forkserver_size,
}
use kafl_targets.Linux.Forkserver.Laws.{forkserver_init-answer}
use kafl_targets.Uefi.Agent.{handshake, payload_max_size as uefi_size}
use kafl_targets.Uefi.Agent.Laws.{handshake-answer}
use kafl_targets.Zephyr.Agent.{agent_init as zephyr_init, payload_max_size as zephyr_size}
use kafl_targets.Zephyr.Agent.Laws.{zephyr_init-answer}
use kafl_targets.Windows.Agent.{init_agent_handshake, payload_max_size as windows_size}
use kafl_targets.Windows.Agent.Laws.{init_agent_handshake-answer}
use kafl_targets.Uefi.Dxe.{harness_init, payload_max_size as dxe_size}
use kafl_targets.Uefi.Dxe.Laws.{harness_init-answer}
use kafl_targets.Linux.FsFuzzer.{agent_init as fs_fuzzer_init, payload_max_size as fsfuzzer_size}
use kafl_targets.Linux.FsFuzzer.Laws.{fs_fuzzer_init-answer}
use kafl_targets.Tests.Samples.{quiet, good_config}

abbrev large : HostConfig
large = record good_config { payload_buffer_size = 0x40000 }

forkserver_init-answer_example :
    Ends
      (λ h. submitted h ≡ answer forkserver_size traced_config good_config [])
      (forkserver_init (host good_config quiet) [])
forkserver_init-answer_example = forkserver_init-answer good_config quiet []

handshake-answer_example :
    Ends
      (λ h. submitted h ≡ answer uefi_size persistent_config good_config [])
      (handshake 0x100 0 (host good_config quiet) [])
handshake-answer_example = handshake-answer 0x100 0 good_config quiet []

zephyr_init-answer_example :
    Ends
      (λ h. submitted h ≡ answer zephyr_size persistent_config good_config [])
      (zephyr_init 0x100 0 (host good_config quiet) [])
zephyr_init-answer_example = zephyr_init-answer 0x100 0 good_config quiet []

init_agent_handshake-answer_example :
    Ends
      (λ h. submitted h ≡ answer windows_size persistent_config large [])
      (init_agent_handshake (host large quiet) [])
init_agent_handshake-answer_example = init_agent_handshake-answer large quiet []

harness_init-answer_example :
    Ends
      (λ h. submitted h ≡ answer dxe_size persistent_config large [])
      (harness_init 0x100 0 (host large quiet) [])
harness_init-answer_example = harness_init-answer 0x100 0 large quiet []

fs_fuzzer_init-answer_example :
    Ends
      (λ h. submitted h ≡ answer fsfuzzer_size plain_config good_config [])
      (fs_fuzzer_init (host good_config quiet) [])
fs_fuzzer_init-answer_example = fs_fuzzer_init-answer good_config quiet []
