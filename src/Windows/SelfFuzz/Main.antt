-- ===== src/Windows/SelfFuzz/Main.antt =====
-- The agent of the self-fuzzing program (windows_x86_64/src/userspace/selffuzz_test.c): its handshake,
-- the search for the code to trace, and `main`.
pub mod Laws
use kafl_targets.Base.{
  ℕ, ⊤, ◌+◌, ◌/◌, ◌%◌, ◌^◌, Bool, true, false, not, none, some, List, [], ◌∷◌, ◌==◌, if◌then◌else◌,
}
use kafl_targets.Base.Int.{is_zero, pos_part}
use kafl_targets.Nyx
use kafl_targets.Nyx.{AgentConfig, nyx_agent_magic, nyx_agent_version}
use kafl_targets.Machine.{
  M, pure, skip, when, ◌>>=◌, ◌>>◌, hypercall_raw, hprintf, habort, host_config, payload, perform,
  libcall, libcall_word, call, target, num, str, word, range_ptr, host_config_ptr, agent_config_ptr,
}
use kafl_targets.Handshake.{zero_config}
use kafl_targets.Buffer.{bytes_of, chain, codes}
use kafl_targets.Windows.SelfFuzz.{fuzzme}

-- `IMAGE_SECTION_HEADER`, as far as it is read.
pub record Section : Type 0 where
  pub name : List ℕ
  pub virtual_address : ℕ
  pub virtual_size : ℕ

-- `memcmp(Name, ".text", 5) == 0`
pub is_text : Section → Bool
unfolding chain
is_text s = elim (chain (bytes_of s.name) 0 (codes ".text")) [ some b ↦ b | none ↦ false ]

-- The code section at the module's address is submitted and locked.
pub submit_section : ℕ → Section → M ⊤
unfolding hypercall_raw libcall habort
submit_section module_base s = do
  let code_start = (module_base + s.virtual_address) % 2 ^ 64
  let code_end = (code_start + s.virtual_size) % 2 ^ 64
  hypercall_raw Nyx.range_submit (range_ptr code_start code_end 0)
  locked ← libcall "VirtualLock" (num code_start ∷ num s.virtual_size ∷ [])
  when (is_zero locked) (habort "Failed to lock .text section in resident memory\n")

-- The loop over the section headers.
pub search_sections : ℕ → List Section → M ⊤
unfolding submit_section is_text habort
search_sections module_base [] = habort "Couldn't locate .text section in PE image\n"
search_sections module_base (s ∷ more) =
    if is_text s then submit_section module_base s else search_sections module_base more

-- `submit_ip_ranges`; `valid` says whether the image has the signature of a PE file.
pub submit_ip_ranges : Bool → List Section → M ⊤
unfolding libcall_word habort search_sections
submit_ip_ranges valid sections = do
  module_base ← libcall_word "GetModuleHandle" []
  when (module_base == 0) (habort "Cannot get module handle\n")
  when (not valid) (habort "Invalid PE signature\n")
  search_sections module_base sections

-- The configuration that the agent submits.
abbrev pub agent_config : AgentConfig
agent_config = record zero_config {
  agent_magic = nyx_agent_magic;
  agent_version = nyx_agent_version;
}

-- `kafl_agent_init`
pub kafl_agent_init : M ⊤
unfolding hypercall_raw hprintf libcall libcall_word habort
kafl_agent_init = do
  hypercall_raw Nyx.acquire (word 0)
  hypercall_raw Nyx.release (word 0)
  hypercall_raw Nyx.user_submit_mode (word Nyx.mode_64)
  hypercall_raw Nyx.get_host_config host_config_ptr
  c ← host_config
  hprintf "[host_config] bitmap sizes = <0x%x,0x%x>\n"
      (num c.bitmap_size ∷ num c.ijon_bitmap_size ∷ [])
  hprintf "[host_config] payload size = %dKB\n" (num (c.payload_buffer_size / 1024) ∷ [])
  hprintf "[host_config] worker id = %02u\n" (num c.worker_id ∷ [])
  hprintf "[+] Allocating buffer for kAFL_payload struct\n" []
  payload_buffer ← libcall_word "VirtualAlloc" (num c.payload_buffer_size ∷ [])
  locked ← libcall "VirtualLock" (num payload_buffer ∷ num c.payload_buffer_size ∷ [])
  when (is_zero locked) (habort "[+] WARNING: Virtuallock failed to lock payload buffer\n")
  hprintf "[+] Submitting buffer address to hypervisor...\n" []
  hypercall_raw Nyx.get_payload (word payload_buffer)
  hypercall_raw Nyx.submit_cr3 (word 0)
  hypercall_raw Nyx.set_agent_config (agent_config_ptr agent_config)
  skip

-- `main` up to `kafl_agent_init`.
create_snapshot : M ⊤
unfolding hprintf hypercall_raw
create_snapshot = do
  hprintf "[+] Starting... %s\n" (str "argv[0]" ∷ [])
  hprintf "[+] Creating snapshot...\n" []
  hypercall_raw Nyx.lock (word 0)
  skip

-- `main` between `kafl_agent_init` and `submit_ip_ranges`.
advise_ranges : M ⊤
unfolding libcall_word perform hprintf hypercall_raw
advise_ranges = do
  range_buffer ← libcall_word "VirtualAlloc" (num 0x1000 ∷ [])
  perform (call "memset" (num range_buffer ∷ num 0xff ∷ num 0x1000 ∷ []))
  hprintf "[+] range buffer %lx...\n" (num range_buffer ∷ [])
  hypercall_raw Nyx.user_range_advise (word range_buffer)
  skip

-- `main` from NEXT_PAYLOAD on.
fuzz_once : M ⊤
unfolding hypercall_raw perform
fuzz_once = do
  hypercall_raw Nyx.next_payload (word 0)
  hypercall_raw Nyx.acquire (word 0)
  p ← payload
  perform (target p)
  fuzzme p.content (pos_part p.size)
  hypercall_raw Nyx.release (word 0)
  skip

-- `main`
pub selffuzz_main : Bool → List Section → M ⊤
unfolding create_snapshot kafl_agent_init advise_ranges submit_ip_ranges fuzz_once
selffuzz_main valid sections =
    create_snapshot
    >> (kafl_agent_init >> (advise_ranges >> (submit_ip_ranges valid sections >> fuzz_once)))
