-- ===== src/Nyx.antt =====
-- nyx_api.h: the numbers of the hypercalls and the structures that guest and host exchange.
pub mod Layout
use kafl_targets.Base.{ℕ, String, List}
use kafl_targets.Base.Int.{ℤ}

-- `HYPERCALL_KAFL_*`
abbrev pub acquire : ℕ
acquire = 0

abbrev pub get_payload : ℕ
get_payload = 1

abbrev pub get_program : ℕ
get_program = 2

abbrev pub release : ℕ
release = 4

abbrev pub submit_cr3 : ℕ
submit_cr3 = 5

abbrev pub submit_panic : ℕ
submit_panic = 6

abbrev pub submit_kasan : ℕ
submit_kasan = 7

abbrev pub panic : ℕ
panic = 8

abbrev pub kasan : ℕ
kasan = 9

abbrev pub lock : ℕ
lock = 10

abbrev pub info : ℕ
info = 11

abbrev pub next_payload : ℕ
next_payload = 12

abbrev pub printf : ℕ
printf = 13

abbrev pub user_range_advise : ℕ
user_range_advise = 16

abbrev pub user_submit_mode : ℕ
user_submit_mode = 17

abbrev pub user_fast_acquire : ℕ
user_fast_acquire = 18

abbrev pub user_abort : ℕ
user_abort = 20

abbrev pub range_submit : ℕ
range_submit = 29

abbrev pub panic_extended : ℕ
panic_extended = 32

abbrev pub get_host_config : ℕ
get_host_config = 35

abbrev pub set_agent_config : ℕ
set_agent_config = 36

abbrev pub dump_file : ℕ
dump_file = 37

abbrev pub req_stream_data_bulk : ℕ
req_stream_data_bulk = 38

abbrev pub hprintf_max_size : ℕ
hprintf_max_size = 0x1000

-- `KAFL_MODE_64` and `KAFL_MODE_32`
abbrev pub mode_64 : ℕ
mode_64 = 0

abbrev pub mode_32 : ℕ
mode_32 = 1

abbrev pub nyx_host_magic : ℕ
nyx_host_magic = 0x4878794e

abbrev pub nyx_agent_magic : ℕ
nyx_agent_magic = 0x4178794e

abbrev pub nyx_host_version : ℕ
nyx_host_version = 2

abbrev pub nyx_agent_version : ℕ
nyx_agent_version = 1

-- `kAFL_payload`: a signed 32-bit size and the bytes that follow it.
pub record Payload : Type 0 where
  pub size : ℤ
  pub content : List ℕ

-- An entry of `kAFL_ranges`.
pub record Range : Type 0 where
  pub ip : ℕ
  pub size : ℕ
  pub enabled : ℕ

-- `host_config_t`
pub record HostConfig : Type 0 where
  pub host_magic : ℕ
  pub host_version : ℕ
  pub bitmap_size : ℕ
  pub ijon_bitmap_size : ℕ
  pub payload_buffer_size : ℕ
  pub worker_id : ℕ

-- `agent_config_t`
pub record AgentConfig : Type 0 where
  pub agent_magic : ℕ
  pub agent_version : ℕ
  pub agent_timeout_detection : ℕ
  pub agent_tracing : ℕ
  pub agent_ijon_tracing : ℕ
  pub agent_non_reload_mode : ℕ
  pub trace_buffer_vaddr : ℕ
  pub ijon_trace_buffer_vaddr : ℕ
  pub coverage_bitmap_size : ℕ
  pub input_buffer_size : ℕ
  pub dump_payloads : ℕ

-- `kafl_dump_file_t`, its file name read through the pointer.
pub record DumpFile : Type 0 where
  pub file_name : String
  pub data_ptr : ℕ
  pub bytes : ℕ
  pub append : ℕ
