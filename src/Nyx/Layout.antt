-- ===== src/Nyx/Layout.antt =====
-- How the structures of nyx_api.h lie in memory, and its numbers as a table. The agents of the firmware
-- have a header of their own (Uefi/Header), which the host has to understand too.
use kafl_targets.Base.{
  ℕ, ◌+◌, ◌*◌, ◌%◌, ◌-◌, String, Bool, true, false, List, [], ◌∷◌, if◌then◌else◌,
}
use kafl_targets.Nyx
use Prim.Native.Nat.{bit_or}

-- A field: the width of its type in bytes, and how many there are of it, 1 if it is no array. A type
-- is aligned to its width.
pub record Field : Type 0 where
  pub name : String
  pub width : ℕ
  pub number : ℕ

abbrev pub field : String → ℕ → ℕ → Field
field n w k = record { name = n; width = w; number = k }

-- A structure, and whether it has the attribute `packed`.
pub record Struct : Type 0 where
  pub packed : Bool
  pub fields : List Field

-- The next multiple of a width.
abbrev pub round_up : ℕ → ℕ → ℕ
round_up at width = at + (width - at % width) % width

-- Where each field begins, from `at` on.
abbrev pub offsets_from : ℕ → Bool → List Field → List (String × ℕ)
offsets_from at packed [] = []
offsets_from at packed (f ∷ more) =
    let begin = if packed then at else round_up at f.width in
    (f.name, begin) ∷ offsets_from (begin + f.width * f.number) packed more

abbrev pub offsets : Struct → List (String × ℕ)
offsets s = offsets_from 0 s.packed s.fields

-- `kAFL_payload`
abbrev pub payload_t : Struct
payload_t = record { packed = false; fields = field "size" 4 1 ∷ field "data" 1 0 ∷ [] }

-- `kAFL_ranges`
abbrev pub ranges_t : Struct
ranges_t = record {
  packed = false;
  fields = field "ip" 8 4 ∷ field "size" 8 4 ∷ field "enabled" 1 4 ∷ [];
}

-- `host_config_t`
abbrev pub host_config_t : Struct
host_config_t = record {
  packed = true;
  fields =
      field "host_magic" 4 1
      ∷ field "host_version" 4 1
      ∷ field "bitmap_size" 4 1
      ∷ field "ijon_bitmap_size" 4 1
      ∷ field "payload_buffer_size" 4 1
      ∷ field "worker_id" 4 1
      ∷ [];
}

-- `agent_config_t`
abbrev pub agent_config_t : Struct
agent_config_t = record {
  packed = true;
  fields =
      field "agent_magic" 4 1
      ∷ field "agent_version" 4 1
      ∷ field "agent_timeout_detection" 1 1
      ∷ field "agent_tracing" 1 1
      ∷ field "agent_ijon_tracing" 1 1
      ∷ field "agent_non_reload_mode" 1 1
      ∷ field "trace_buffer_vaddr" 8 1
      ∷ field "ijon_trace_buffer_vaddr" 8 1
      ∷ field "coverage_bitmap_size" 4 1
      ∷ field "input_buffer_size" 4 1
      ∷ field "dump_payloads" 1 1
      ∷ [];
}

-- `kafl_dump_file_t`
abbrev pub dump_file_t : Struct
dump_file_t = record {
  packed = true;
  fields =
      field "file_name_str_ptr" 8 1
      ∷ field "data_ptr" 8 1
      ∷ field "bytes" 8 1
      ∷ field "append" 1 1
      ∷ [];
}

-- `req_data_bulk_t`
abbrev pub req_data_bulk_t : Struct
req_data_bulk_t = record {
  packed = true;
  fields = field "file_name" 1 256 ∷ field "num_addresses" 8 1 ∷ field "addresses" 8 479 ∷ [];
}

abbrev hypertrash_hypercall_mask : ℕ
hypertrash_hypercall_mask = 0xAA000000

-- The numbers of nyx_api.h.
abbrev pub numbers : List (String × ℕ)
numbers =
    ("HYPERCALL_KAFL_RAX_ID", 0x01f)
    ∷ ("HYPERCALL_KAFL_ACQUIRE", Nyx.acquire)
    ∷ ("HYPERCALL_KAFL_GET_PAYLOAD", Nyx.get_payload)
    ∷ ("HYPERCALL_KAFL_GET_PROGRAM", Nyx.get_program)
    ∷ ("HYPERCALL_KAFL_GET_ARGV", 3)
    ∷ ("HYPERCALL_KAFL_RELEASE", Nyx.release)
    ∷ ("HYPERCALL_KAFL_SUBMIT_CR3", Nyx.submit_cr3)
    ∷ ("HYPERCALL_KAFL_SUBMIT_PANIC", Nyx.submit_panic)
    ∷ ("HYPERCALL_KAFL_SUBMIT_KASAN", Nyx.submit_kasan)
    ∷ ("HYPERCALL_KAFL_PANIC", Nyx.panic)
    ∷ ("HYPERCALL_KAFL_KASAN", Nyx.kasan)
    ∷ ("HYPERCALL_KAFL_LOCK", Nyx.lock)
    ∷ ("HYPERCALL_KAFL_INFO", Nyx.info)
    ∷ ("HYPERCALL_KAFL_NEXT_PAYLOAD", Nyx.next_payload)
    ∷ ("HYPERCALL_KAFL_PRINTF", Nyx.printf)
    ∷ ("HYPERCALL_KAFL_PRINTK_ADDR", 14)
    ∷ ("HYPERCALL_KAFL_PRINTK", 15)
    ∷ ("HYPERCALL_KAFL_USER_RANGE_ADVISE", Nyx.user_range_advise)
    ∷ ("HYPERCALL_KAFL_USER_SUBMIT_MODE", Nyx.user_submit_mode)
    ∷ ("HYPERCALL_KAFL_USER_FAST_ACQUIRE", Nyx.user_fast_acquire)
    ∷ ("HYPERCALL_KAFL_USER_ABORT", Nyx.user_abort)
    ∷ ("HYPERCALL_KAFL_TIMEOUT", 21)
    ∷ ("HYPERCALL_KAFL_RANGE_SUBMIT", Nyx.range_submit)
    ∷ ("HYPERCALL_KAFL_REQ_STREAM_DATA", 30)
    ∷ ("HYPERCALL_KAFL_PANIC_EXTENDED", Nyx.panic_extended)
    ∷ ("HYPERCALL_KAFL_CREATE_TMP_SNAPSHOT", 33)
    ∷ ("HYPERCALL_KAFL_DEBUG_TMP_SNAPSHOT", 34)
    ∷ ("HYPERCALL_KAFL_GET_HOST_CONFIG", Nyx.get_host_config)
    ∷ ("HYPERCALL_KAFL_SET_AGENT_CONFIG", Nyx.set_agent_config)
    ∷ ("HYPERCALL_KAFL_DUMP_FILE", Nyx.dump_file)
    ∷ ("HYPERCALL_KAFL_REQ_STREAM_DATA_BULK", Nyx.req_stream_data_bulk)
    ∷ ("HYPERCALL_KAFL_PERSIST_PAGE_PAST_SNAPSHOT", 39)
    ∷ ("HYPERCALL_KAFL_NESTED_PREPARE", bit_or 0 hypertrash_hypercall_mask)
    ∷ ("HYPERCALL_KAFL_NESTED_CONFIG", bit_or 1 hypertrash_hypercall_mask)
    ∷ ("HYPERCALL_KAFL_NESTED_ACQUIRE", bit_or 2 hypertrash_hypercall_mask)
    ∷ ("HYPERCALL_KAFL_NESTED_RELEASE", bit_or 3 hypertrash_hypercall_mask)
    ∷ ("HYPERCALL_KAFL_NESTED_HPRINTF", bit_or 4 hypertrash_hypercall_mask)
    ∷ ("HPRINTF_MAX_SIZE", Nyx.hprintf_max_size)
    ∷ ("KAFL_MODE_64", Nyx.mode_64)
    ∷ ("KAFL_MODE_32", Nyx.mode_32)
    ∷ ("KAFL_MODE_16", 2)
    ∷ ("NYX_HOST_MAGIC", Nyx.nyx_host_magic)
    ∷ ("NYX_AGENT_MAGIC", Nyx.nyx_agent_magic)
    ∷ ("NYX_HOST_VERSION", Nyx.nyx_host_version)
    ∷ ("NYX_AGENT_VERSION", Nyx.nyx_agent_version)
    ∷ []
