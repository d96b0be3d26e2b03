-- ===== src/Linux/Agent/Transfer.antt =====
-- Files between guest and host: hprintf_from_file, hget_file and hpush_file. Each loop is cut off
-- after `fuel` rounds.

pub mod Get
pub mod Push
pub mod Content
pub mod Received
pub mod Fetched
pub mod Silent
use Prim.Native.String.{len}
use kafl_targets.Base.{
  ℕ, zero, suc, ◌+◌, ◌*◌, ◌%◌, ◌^◌, ◌-◌, Bool, not, ltb, String, List, [], ◌∷◌, ◌==◌, if◌then◌else◌,
}
use kafl_targets.Base.Int.{ℤ, pos, negsuc, is_minus_one, is_negative, is_zero}
use kafl_targets.Nyx
use kafl_targets.Nyx.{hprintf_max_size}
use kafl_targets.Machine.{
  M, pure, stop, ◌>>=◌, ◌>>◌, hypercall_raw, perform, libcall, libcall_word, errno, hprintf, habort,
  call, num, int, str, buffer_ptr, stream_ptr, dump_file_ptr, out_of_fuel,
}
use kafl_targets.Linux.Agent.Cpu.{CpuType, hypercall}
use kafl_targets.Linux.Agent.Pages.{page_size, malloc_resident_pages, free_resident_pages}

-- `-EIO` and `-ENAMETOOLONG`
abbrev eio : ℤ
eio = negsuc 4

abbrev enametoolong : ℤ
enametoolong = negsuc 35

-- 1 MB at a time.
abbrev pub num_pages : ℕ
num_pages = 256

abbrev pub scratch_size : ℕ
scratch_size = num_pages * page_size

-- `ret == r` between a signed and an unsigned count.
abbrev eq_count : ℤ → ℕ → Bool
eq_count (pos w) r = w == r
eq_count (negsuc w) r = 2 ^ 64 - w - 1 == r

-- The addresses of the pages of a buffer.
pub page_addresses : ℕ → ℕ → List ℕ
page_addresses zero base = []
page_addresses (suc n) base = base ∷ page_addresses n ((base + page_size) % 2 ^ 64)

module _ (depth : ℕ) (cpu : CpuType) where
  -- `hprintf_from_file`, from `written` bytes on.
  print_loop : ℕ → ℕ → ℕ → M ℤ
  unfolding hypercall libcall libcall_word
  print_loop zero f written = stop out_of_fuel
  print_loop (suc fuel) f written = do
    at_end ← libcall "feof" (num f ∷ [])
    if not (is_zero at_end) then pure (pos written) else do
      read ← libcall_word "fread" (num 1 ∷ num hprintf_max_size ∷ num f ∷ [])
      failed ← libcall "ferror" (num f ∷ [])
      if not (is_zero failed) then pure (negsuc 0) else do
        hypercall depth cpu Nyx.printf buffer_ptr
        print_loop fuel f ((written + read) % 2 ^ 64)

  unfoldable pub hprintf_from_file : ℕ → ℕ → M ℤ
  unfolding print_loop
  hprintf_from_file fuel f = print_loop fuel f 0

  -- The loop of `hget_file`: its result is `ret`.
  pub get_loop : ℕ → String → ℕ → ℤ → M ℤ
  unfolding hypercall libcall
  get_loop zero name scratch_buf fd = stop out_of_fuel
  get_loop (suc fuel) name scratch_buf fd = do
    read ←
        hypercall depth cpu Nyx.req_stream_data_bulk
          (stream_ptr name (page_addresses num_pages scratch_buf))
    if read == 0xFFFFFFFFFFFFFFFF then pure eio else do
      written ← libcall "write" (int fd ∷ num scratch_buf ∷ num read ∷ [])
      if not (eq_count written read)
          then pure eio
          else if read == scratch_size
          then get_loop fuel name scratch_buf fd
          else pure (pos 0)

  -- `hget_file` with its buffer allocated, and `basename` of the C library.
  pub hget_into : (String → String) → ℕ → String → ℕ → ℕ → M ℤ
  unfolding libcall perform
  hget_into basename fuel src_path flags scratch_buf =
      if not (ltb (len src_path) 256) then pure enametoolong else (do
        fd ← libcall "creat" (str (basename src_path) ∷ num flags ∷ [])
        if is_minus_one fd then (do e ← errno; pure (pos e)) else do
          ret ← get_loop fuel src_path scratch_buf fd
          perform (call "close" (int fd ∷ []))
          perform (call "free" (num scratch_buf ∷ []))
          pure ret)

  -- `hget_file`
  unfoldable pub hget_file : (String → String) → ℕ → String → ℕ → M ℤ
  hget_file basename fuel src_path flags = do
    scratch_buf ← malloc_resident_pages num_pages
    hget_into basename fuel src_path flags scratch_buf

-- The loop of `hpush_file`: `append` is the flag of the next chunk; the result is `total_sent`.
pub push_loop : ℕ → String → String → ℤ → ℕ → ℕ → ℕ → M ℕ
unfolding hypercall_raw libcall hprintf habort
push_loop zero src_path dst_name fd scratch_buf append total = stop out_of_fuel
push_loop (suc fuel) src_path dst_name fd scratch_buf append total = do
  bytes ← libcall "read" (int fd ∷ num scratch_buf ∷ num scratch_size ∷ [])
  hprintf "[hpush] %s => %s (%lu bytes)\n" (str src_path ∷ str dst_name ∷ int bytes ∷ [])
  elim bytes [
    | pos n ↦ if n == 0 then pure total else do
      hypercall_raw Nyx.dump_file (
          dump_file_ptr
            (record { file_name = dst_name; data_ptr = scratch_buf; bytes = n; append = append }))
      push_loop fuel src_path dst_name fd scratch_buf 1 (total + n)
    | negsuc n ↦ if n == 0 then habort "hpush read error" >> pure total else pure total
  ]

-- `err_out` of `hpush_file`.
pub push_out : ℕ → ℤ → ℤ → M ℤ
unfolding perform free_resident_pages
push_out scratch_buf fd ret = do
  free_resident_pages scratch_buf num_pages
  perform (call "close" (int fd ∷ []))
  pure ret

-- `hpush_file` with its file open and its buffer allocated.
pub push_into : ℕ → String → String → ℕ → ℤ → ℕ → M ℤ
unfolding hprintf
push_into fuel src_path dst_name append fd scratch_buf =
    if scratch_buf == 0 then (do e ← errno; push_out scratch_buf fd (pos e)) else do
      total_sent ← push_loop fuel src_path dst_name fd scratch_buf append 0
      hprintf "[hpush] %s => %s (%lu bytes)\n" (str src_path ∷ str dst_name ∷ num total_sent ∷ [])
      push_out scratch_buf fd (pos 0)

-- `hpush_file`
unfoldable pub hpush_file : ℕ → String → String → ℕ → M ℤ
unfolding libcall push_into
hpush_file fuel src_path dst_name append = do
  fd ← libcall "open" (str src_path ∷ num 0 ∷ [])
  if is_negative fd then (do e ← errno; push_out 0 fd (pos e)) else do
    scratch_buf ← malloc_resident_pages num_pages
    push_into fuel src_path dst_name append fd scratch_buf
