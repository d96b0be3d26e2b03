-- ===== src/Tests/Disk.antt =====
-- A guest file of three bytes, a disk that serves it, and a host that shares the same file.
use package.text.Mathlib.Text.{◌==◌ as str_eq}
use kafl_targets.Base.{
  ℕ, String, ◌+◌, ◌-◌, ◌≤◌, ◌≡◌, refl, List, [], ◌∷◌, leb, arith, if◌then◌else◌,
}
use kafl_targets.Base.Int.{ℤ, pos}
use kafl_targets.Machine.{
  Env, History, Event, call, vmcall, target, Val, num, stream_ptr, word, text, formatted,
  host_config_ptr, agent_config_ptr, range_ptr, dump_file_ptr, buffer_ptr,
}
use kafl_targets.Linux.Agent.Pages.Laws.{HasMemory}
use kafl_targets.Linux.Agent.Transfer.{scratch_size}
use kafl_targets.Linux.Agent.Transfer.Content.{offset, ReadsFile}
use kafl_targets.Linux.Agent.Transfer.Fetched.{got, Streams, WritesAll}
use kafl_targets.Tests.Samples.{quiet}

abbrev pub file : List ℕ
file = 1 ∷ 2 ∷ 3 ∷ []

abbrev min : ℕ → ℕ → ℕ
min a b = if leb a b then a else b

-- The bytes that a `read` at the position `o` brings.
abbrev amount : List Val → ℕ → ℕ
amount (a ∷ b ∷ num size ∷ []) o = min size (3 - o)
amount _ o = 0

-- The position in the guest's file.
abbrev position : History → ℕ
position [] = 0
position (call name args ∷ h) =
    let o = position h in if str_eq name "read" then o + amount args o else o
position (_ ∷ h) = position h

abbrev count : List Val → ℕ
count (a ∷ b ∷ num n ∷ []) = n
count _ = 0

abbrev answer : History → Event → ℤ
answer h (call name args) =
    if str_eq name "read"
    then pos (amount args (position h))
    else if str_eq name "write"
    then pos (count args)
    else pos 0
answer h (vmcall id a) = pos 0
answer h (target p) = pos 0

abbrev serving : Env
serving = record quiet { result = answer }

-- What the host sends next, at the position `o` of its file.
abbrev chunk_at : ℕ → ℕ
chunk_at o = let left = 3 - o in if leb scratch_size left then scratch_size else left

-- How far the host has streamed its file of this name.
abbrev streamed : String → History → ℕ
streamed name [] = 0
streamed name (vmcall id (stream_ptr asked pages) ∷ h) =
    let o = streamed name h in
    let n = chunk_at (streamed asked h) in if str_eq asked name then o + n else o
streamed name (_ ∷ h) = streamed name h

abbrev register : History → Event → ℕ
register h (vmcall id (stream_ptr name pages)) = chunk_at (streamed name h)
register h _ = 0x1000

abbrev pub disk : Env
disk = record serving { rax = register }

-- The host has the file under every name.
abbrev pub shared : String → List ℕ
shared name = file

streamed_same : (name : String) (h : History) → got disk shared name h ≡ streamed name h
streamed_same name [] = refl
streamed_same name (call f args ∷ h) = streamed_same name h
streamed_same name (vmcall id (stream_ptr n m) ∷ h) = rw (streamed_same name h) refl
streamed_same name (vmcall id (dump_file_ptr d) ∷ h) = streamed_same name h
streamed_same name (vmcall id (word n) ∷ h) = streamed_same name h
streamed_same name (vmcall id (text n) ∷ h) = streamed_same name h
streamed_same name (vmcall id (formatted n m) ∷ h) = streamed_same name h
streamed_same name (vmcall id host_config_ptr ∷ h) = streamed_same name h
streamed_same name (vmcall id (agent_config_ptr n) ∷ h) = streamed_same name h
streamed_same name (vmcall id (range_ptr n m k) ∷ h) = streamed_same name h
streamed_same name (vmcall id buffer_ptr ∷ h) = streamed_same name h
streamed_same name (target p ∷ h) = streamed_same name h

offset_position : (h : History) → offset disk file h ≡ position h
offset_position [] = refl
offset_position (call name args ∷ h) = ground (arith, offset_position h)
offset_position (vmcall id a ∷ h) = offset_position h
offset_position (target p ∷ h) = offset_position h

amount_bound : (args : List Val) (o : ℕ) → o ≤ 3 → o + amount args o ≤ 3
amount_bound args o le = ground arith

position_bound : (h : History) → position h ≤ 3
position_bound [] = omega arith
position_bound (call name args ∷ h) =
    ground (arith, position_bound h, amount_bound args (position h))
position_bound (vmcall id a ∷ h) = position_bound h
position_bound (target p ∷ h) = position_bound h

pub disk-ReadsFile : ReadsFile disk file
disk-ReadsFile h fd buf size some_size =
    let here = offset_position h in
    let bound = position_bound h in
    (min size (3 - position h), refl, ground arith, ground arith, λ e. ground arith)

pub disk-HasMemory : HasMemory disk
disk-HasMemory = record {
  allocated = λ h args. ground arith;
  aligned = λ h args. refl;
  locked = λ h args. refl;
}

pub disk-Streams : (name : String) → Streams disk shared name
disk-Streams name h pages = rw (streamed_same name h) refl

pub disk-WritesAll : WritesAll disk shared
disk-WritesAll h fd buf n = refl
