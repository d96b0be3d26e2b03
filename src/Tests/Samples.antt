-- ===== src/Tests/Samples.antt =====
-- The surroundings of the tests: a host that understands the agents, calls that succeed, a
-- streamed file of two chunks and a guest file of one.
use package.text.Mathlib.Text.{◌==◌ as str_eq}
use kafl_targets.Base.{ℕ, true, List, [], ◌∷◌, ◌==◌, if◌then◌else◌}
use kafl_targets.Base.Int.{ℤ, pos}
use kafl_targets.Nyx.{HostConfig, nyx_host_magic, nyx_host_version}
use kafl_targets.Machine.{Env, History, Event, call, vmcall, target, Val, num, abort_final}
use kafl_targets.Linux.Agent.Transfer.{scratch_size}
use kafl_targets.Linux.Agent.Transfer.Get.{requests}
use kafl_targets.Linux.Agent.Transfer.Push.{chunks}

abbrev pub good_config : HostConfig
good_config = record {
  host_magic = nyx_host_magic;
  host_version = nyx_host_version;
  bitmap_size = 0x10000;
  ijon_bitmap_size = 0x1000;
  payload_buffer_size = 0x8000;
  worker_id = 0;
}

-- The third argument of `write`, where it is a count.
abbrev count_of : List Val → ℕ
count_of (a ∷ b ∷ num n ∷ more) = n
count_of _ = 0

abbrev pub answer : History → Event → ℤ
answer h (call name args) =
    if str_eq name "write"
    then pos (count_of args)
    else if str_eq name "read"
    then (if chunks h == 0 then pos 5 else pos 0)
    else pos 0
answer h (vmcall id a) = pos 0
answer h (target p) = pos 0

abbrev pub quiet : Env
quiet = abort_final (record {
  resumes = λ _ _. true;
  rax = λ h _. if requests h == 0 then scratch_size else 0x2000;
  result = answer;
  errno = λ _. 2;
  host_config = λ _. good_config;
  payload = λ _. record { size = pos 3; content = 1 ∷ 2 ∷ 3 ∷ [] };
})
