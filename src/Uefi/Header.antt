-- ===== src/Uefi/Header.antt =====
-- kAFLAgentLib.h: the copy of the hypercall interface that the firmware's programs are built with
-- (uefi_ovmf_64/kAFLAgentPkg/Include/Library/kAFLAgentLib.h), and that it agrees with nyx_api.h, from
-- which the models of these programs take their numbers and structures.
use kafl_targets.Base.{ℕ, String, ◌≡◌, refl, true, false, List, [], ◌∷◌, map}
use kafl_targets.Nyx.Layout
use kafl_targets.Nyx.Layout.{Field, Struct, field, offsets}
use Prim.Native.Nat.{bit_or}

-- `kAFL_payload`
abbrev pub payload_t : Struct
payload_t = record { packed = false; fields = field "size" 4 1 ∷ field "data" 1 0 ∷ [] }

-- `kAFL_ranges`
abbrev pub ranges_t : Struct
ranges_t = record {
  packed = false;
  fields = field "ip" 8 4 ∷ field "size" 8 4 ∷ field "enabled" 1 4 ∷ [];
}

-- `host_config_t`
abbrev pub host_config_t : Struct
host_config_t = record {
  packed = true;
  fields =
      field "host_magic" 4 1
      ∷ field "host_version" 4 1
      ∷ field "bitmap_size" 4 1
      ∷ field "ijon_bitmap_size" 4 1
      ∷ field "payload_buffer_size" 4 1
      ∷ field "worker_id" 4 1
      ∷ [];
}

-- `agent_config_t`
abbrev pub agent_config_t : Struct
agent_config_t = record {
  packed = true;
  fields =
      field "agent_magic" 4 1
      ∷ field "agent_version" 4 1
      ∷ field "agent_timeout_detection" 1 1
      ∷ field "agent_tracing" 1 1
      ∷ field "agent_ijon_tracing" 1 1
      ∷ field "agent_non_reload_mode" 1 1
      ∷ field "trace_buffer_vaddr" 8 1
      ∷ field "ijon_trace_buffer_vaddr" 8 1
      ∷ field "coverage_bitmap_size" 4 1
      ∷ field "input_buffer_size" 4 1
      ∷ field "dump_payloads" 1 1
      ∷ [];
}

-- `kafl_dump_file_t`
abbrev pub dump_file_t : Struct
dump_file_t = record {
  packed = true;
  fields =
      field "file_name_str_ptr" 8 1
      ∷ field "data_ptr" 8 1
      ∷ field "bytes" 8 1
      ∷ field "append" 1 1
      ∷ [];
}

-- `req_data_bulk_t`
abbrev pub req_data_bulk_t : Struct
req_data_bulk_t = record {
  packed = false;
  fields = field "file_name" 1 256 ∷ field "num_addresses" 8 1 ∷ field "addresses" 8 479 ∷ [];
}

abbrev hypertrash_hypercall_mask : ℕ
hypertrash_hypercall_mask = 0xAA000000

-- The numbers of kAFLAgentLib.h.
abbrev pub numbers : List (String × ℕ)
numbers =
    ("HYPERCALL_KAFL_RAX_ID", 0x01f)
    ∷ ("HYPERCALL_KAFL_ACQUIRE", 0)
    ∷ ("HYPERCALL_KAFL_GET_PAYLOAD", 1)
    ∷ ("HYPERCALL_KAFL_GET_PROGRAM", 2)
    ∷ ("HYPERCALL_KAFL_GET_ARGV", 3)
    ∷ ("HYPERCALL_KAFL_RELEASE", 4)
    ∷ ("HYPERCALL_KAFL_SUBMIT_CR3", 5)
    ∷ ("HYPERCALL_KAFL_SUBMIT_PANIC", 6)
    ∷ ("HYPERCALL_KAFL_SUBMIT_KASAN", 7)
    ∷ ("HYPERCALL_KAFL_PANIC", 8)
    ∷ ("HYPERCALL_KAFL_KASAN", 9)
    ∷ ("HYPERCALL_KAFL_LOCK", 10)
    ∷ ("HYPERCALL_KAFL_INFO", 11)
    ∷ ("HYPERCALL_KAFL_NEXT_PAYLOAD", 12)
    ∷ ("HYPERCALL_KAFL_PRINTF", 13)
    ∷ ("HYPERCALL_KAFL_PRINTK_ADDR", 14)
    ∷ ("HYPERCALL_KAFL_PRINTK", 15)
    ∷ ("HYPERCALL_KAFL_USER_RANGE_ADVISE", 16)
    ∷ ("HYPERCALL_KAFL_USER_SUBMIT_MODE", 17)
    ∷ ("HYPERCALL_KAFL_USER_FAST_ACQUIRE", 18)
    ∷ ("HYPERCALL_KAFL_USER_ABORT", 20)
    ∷ ("HYPERCALL_KAFL_TIMEOUT", 21)
    ∷ ("HYPERCALL_KAFL_RANGE_SUBMIT", 29)
    ∷ ("HYPERCALL_KAFL_REQ_STREAM_DATA", 30)
    ∷ ("HYPERCALL_KAFL_PANIC_EXTENDED", 32)
    ∷ ("HYPERCALL_KAFL_CREATE_TMP_SNAPSHOT", 33)
    ∷ ("HYPERCALL_KAFL_DEBUG_TMP_SNAPSHOT", 34)
    ∷ ("HYPERCALL_KAFL_GET_HOST_CONFIG", 35)
    ∷ ("HYPERCALL_KAFL_SET_AGENT_CONFIG", 36)
    ∷ ("HYPERCALL_KAFL_DUMP_FILE", 37)
    ∷ ("HYPERCALL_KAFL_REQ_STREAM_DATA_BULK", 38)
    ∷ ("HYPERCALL_KAFL_PERSIST_PAGE_PAST_SNAPSHOT", 39)
    ∷ ("HYPERCALL_KAFL_NESTED_PREPARE", bit_or 0 hypertrash_hypercall_mask)
    ∷ ("HYPERCALL_KAFL_NESTED_CONFIG", bit_or 1 hypertrash_hypercall_mask)
    ∷ ("HYPERCALL_KAFL_NESTED_ACQUIRE", bit_or 2 hypertrash_hypercall_mask)
    ∷ ("HYPERCALL_KAFL_NESTED_RELEASE", bit_or 3 hypertrash_hypercall_mask)
    ∷ ("HYPERCALL_KAFL_NESTED_HPRINTF", bit_or 4 hypertrash_hypercall_mask)
    ∷ ("HPRINTF_MAX_SIZE", 0x1000)
    ∷ ("KAFL_MODE_64", 0)
    ∷ ("KAFL_MODE_32", 1)
    ∷ ("KAFL_MODE_16", 2)
    ∷ ("NYX_HOST_MAGIC", 0x4878794e)
    ∷ ("NYX_AGENT_MAGIC", 0x4178794e)
    ∷ ("NYX_HOST_VERSION", 2)
    ∷ ("NYX_AGENT_VERSION", 1)
    ∷ []

-- Both headers have the same numbers under the same names.
numbers_agree : numbers ≡ Layout.numbers
numbers_agree = refl

-- Every structure has its fields at the same offsets in both headers. The request for a file is packed
-- only in nyx_api.h, and lies in the same way.
offsets_agree :
    map offsets
      (payload_t ∷ ranges_t ∷ host_config_t ∷ agent_config_t ∷ dump_file_t ∷ req_data_bulk_t ∷ [])
    ≡ map offsets (
        Layout.payload_t ∷ Layout.ranges_t ∷ Layout.host_config_t ∷ Layout.agent_config_t
        ∷ Layout.dump_file_t ∷ Layout.req_data_bulk_t ∷ [])
offsets_agree = refl
