-- ===== src/Linux/Agent/Transfer/Get.antt =====
-- Fetching a file from the host: when it ends, and what is stored then.
use package.text.Mathlib.Text.{◌==◌ as str_eq}
use kafl_targets.Base.{
  ◌∙◌, ℕ, zero, suc, ◌+◌, ◌≡◌, ◌≢◌, ◌≤◌, ◌<◌, ◌⊎◌, List, [], ◌∷◌, String, arith, ◌==◌,
  if◌then◌else◌,
}
use kafl_targets.Base.Int.{ℤ, pos, negsuc, pos_part}
use kafl_targets.Nyx
use kafl_targets.Nyx.{DumpFile}
use kafl_targets.Machine.{
  Env, History, call, vmcall, After, stream_ptr, Val, num, int, str, OnFuel, OnFuel-bind,
  After-bind, Event, ◌>>=◌,
}
use kafl_targets.Linux.Agent.Cpu.{CpuType, nyx_cpu_v1, nyx_cpu_v2, nyx_cpu_none, nyx_cpu_invalid}
use kafl_targets.Linux.Agent.Cpu.Laws.{hypercall_before_detection}
use kafl_targets.Linux.Agent.Pages.{malloc_resident_pages}
use kafl_targets.Linux.Agent.Transfer.{
  hget_into, page_addresses, num_pages, get_loop, hget_file, scratch_size,
}

-- The requests for a chunk of a file.
abbrev pub requests : History → ℕ
requests [] = 0
requests (vmcall id (stream_ptr name pages) ∷ h) = suc (requests h)
requests (_ ∷ h) = requests h

-- The host's file fills the scratch buffer at most `bound` times.
abbrev HostFileEnds : Env → ℕ → Type 0
HostFileEnds env bound = (h : History) (e : Event) → bound ≤ requests h → env.rax h e ≢ scratch_size

-- The bytes that the host has streamed, its error value aside.
abbrev pub streamed : Env → History → ℕ
streamed env [] = 0
streamed env (vmcall id (stream_ptr name pages) ∷ h) =
    let n = env.rax h (vmcall id (stream_ptr name pages)) in
    (if n == 0xFFFFFFFFFFFFFFFF then 0 else n) + streamed env h
streamed env (_ ∷ h) = streamed env h

-- The bytes that `write` has stored, by its own count.
abbrev pub stored : Env → History → ℕ
stored env [] = 0
stored env (call name args ∷ h) =
    (if str_eq name "write" then pos_part (env.result h (call name args)) else 0) + stored env h
stored env (_ ∷ h) = stored env h

-- `write` returns -1 or a count.
abbrev CountsWrites : Env → Type 0
CountsWrites env =
    (h : History) (args : List Val)
    → (env.result h (call "write" args) ≡ negsuc 0)
      ⊎ ((n : ℕ) × (env.result h (call "write" args) ≡ pos n))

module _ (depth : ℕ) (name : String) (buf : ℕ) (fd : ℤ) (env : Env) where
  abbrev request : Event
  request = vmcall Nyx.req_stream_data_bulk (stream_ptr name (page_addresses num_pages buf))

  abbrev write_args : History → List Val
  write_args h = int fd ∷ num buf ∷ num (env.rax h request) ∷ []

  abbrev after_round : History → History
  after_round h = call "write" (write_args h) ∷ request ∷ h

  get_loop_ends :
      (bound : ℕ)
      → HostFileEnds env bound
      → (cpu : CpuType) (fuel : ℕ) (h : History) → requests h ≤ bound
      → bound < requests h + fuel
      → OnFuel (λ _. ⊥) (get_loop depth cpu fuel name buf fd env h)
  unfolding get_loop
  get_loop_ends bound ends nyx_cpu_v1 zero h le lt = omega arith
  get_loop_ends bound ends nyx_cpu_v1 (suc fuel) h le lt =
      ground (arith, ends h request, get_loop_ends bound ends nyx_cpu_v1 fuel (after_round h))
  get_loop_ends bound ends nyx_cpu_v2 zero h le lt = omega arith
  get_loop_ends bound ends nyx_cpu_v2 (suc fuel) h le lt = ground arith
  get_loop_ends bound ends nyx_cpu_none zero h le lt = omega arith
  get_loop_ends bound ends nyx_cpu_none (suc fuel) h le lt = ground arith
  get_loop_ends bound ends nyx_cpu_invalid zero h le lt = omega arith
  get_loop_ends bound ends nyx_cpu_invalid (suc fuel) h le lt =
      rw (hypercall_before_detection depth, get_loop, ◌>>=◌) tt

  get_loop-stored :
      CountsWrites env
      → (fuel : ℕ) (h : History) → stored env h ≡ streamed env h
      → After
          (λ ret h'. (ret ≢ pos 0) ⊎ (stored env h' ≡ streamed env h'))
          (λ _. Unit {0})
          (get_loop depth nyx_cpu_v1 fuel name buf fd env h)
  unfolding get_loop
  get_loop-stored counts zero h same = tt
  get_loop-stored counts (suc fuel) h same =
      ground
        (arith, counts (request ∷ h) (write_args h), get_loop-stored counts fuel (after_round h))

-- Getting the buffer requests and stores nothing, and needs no loop.
malloc-requests :
    (n : ℕ) (env : Env) (h : History)
    → After (λ _ h'. requests h' ≡ requests h) (λ _. Unit {0}) (malloc_resident_pages n env h)
unfolding malloc_resident_pages
malloc-requests n env h = ground arith

malloc-stored :
    (n : ℕ) (env : Env) (h : History)
    → stored env h ≡ streamed env h
    → After
        (λ _ h'. stored env h' ≡ streamed env h')
        (λ _. Unit {0})
        (malloc_resident_pages n env h)
unfolding malloc_resident_pages
malloc-stored n env h same = ground arith

malloc-fuel : (n : ℕ) (env : Env) (h : History) → OnFuel (λ _. ⊥) (malloc_resident_pages n env h)
unfolding malloc_resident_pages
malloc-fuel n env h = ground arith

module _ (depth : ℕ) (basename : String → String) (src : String) (flags : ℕ) (env : Env) where
  hget_into_ends :
      (cpu : CpuType) (bound fuel : ℕ)
      → HostFileEnds env bound
      → bound < fuel
      → (buf : ℕ) (h : History) → requests h ≡ 0
      → OnFuel (λ _. ⊥) (hget_into depth cpu basename fuel src flags buf env h)
  unfolding hget_into
  hget_into_ends cpu bound fuel ends lt buf h start =
      let creat = call "creat" (str (basename src) ∷ num flags ∷ []) in
      ground (
        arith,
        get_loop_ends depth src buf (env.result h creat) env bound ends cpu fuel (creat ∷ h),
      )

  -- If the host's file fills the scratch buffer at most `bound` times, then from a history without
  -- requests `hget_file` needs no more than `bound + 1` rounds of its loop: with that much fuel it
  -- is never cut off by the fuel, on any type of CPU.
  pub hget_file-ends :
      (cpu : CpuType) (bound fuel : ℕ) (h : History)
      → HostFileEnds env bound
      → bound < fuel
      → requests h ≡ 0
      → OnFuel (λ _. ⊥) (hget_file depth cpu basename fuel src flags env h)
  unfolding hget_file
  hget_file-ends cpu bound fuel h ends lt start =
      OnFuel-bind (λ _ h'. requests h' ≡ requests h) (λ _. ⊥) (malloc_resident_pages num_pages)
        (hget_into depth cpu basename fuel src flags) env h (malloc-requests num_pages env h)
        (malloc-fuel num_pages env h)
        (λ buf h' same. hget_into_ends cpu bound fuel ends lt buf h' (same ∙ start))

  hget_into-stored :
      (fuel : ℕ)
      → CountsWrites env
      → (buf : ℕ) (h : History) → stored env h ≡ streamed env h
      → After
          (λ ret h'. (ret ≢ pos 0) ⊎ (stored env h' ≡ streamed env h'))
          (λ _. Unit {0})
          (hget_into depth nyx_cpu_v1 basename fuel src flags buf env h)
  unfolding hget_into
  hget_into-stored fuel counts buf h same = grind (arith, get_loop-stored)

  -- Where `write` returns -1 or a count: from a history that has stored what the host has streamed,
  -- a fetch on a version 1 CPU that returns 0 has again stored as many bytes as the host has
  -- streamed.
  hget_file-stored :
      (fuel : ℕ) (h : History)
      → CountsWrites env
      → stored env h ≡ streamed env h
      → After
          (λ ret h'. (ret ≢ pos 0) ⊎ (stored env h' ≡ streamed env h'))
          (λ _. Unit {0})
          (hget_file depth nyx_cpu_v1 basename fuel src flags env h)
  unfolding hget_file
  hget_file-stored fuel h counts same =
      After-bind (λ _ h'. stored env h' ≡ streamed env h')
        (λ ret h'. (ret ≢ pos 0) ⊎ (stored env h' ≡ streamed env h')) (λ _. Unit {0})
        (malloc_resident_pages num_pages) (hget_into depth nyx_cpu_v1 basename fuel src flags) env h
        (malloc-stored num_pages env h same) (hget_into-stored fuel counts)
