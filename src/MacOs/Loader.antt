-- ===== src/MacOs/Loader.antt =====
-- The loader of the fuzzing program (macOS_x86_64/loader/loader.c), without AUTORELOAD and
-- DEBUG_MODE; the builds with these are in MacOs/Loader/Reload and MacOs/Loader/Debug.
-- TARGET_FILE and PROGRAM_SIZE of kafl_user.h are parameters.
pub mod Laws
pub mod Debug
pub mod Reload
use kafl_targets.Base.{ℕ, zero, suc, ⊤, String, [], ◌∷◌, ◌==◌, if◌then◌else◌}
use kafl_targets.Base.Int.{ℤ, is_zero}
use kafl_targets.Nyx
use kafl_targets.Machine.{
  M, pure, skip, stop, ◌>>=◌, ◌>>◌, hypercall_raw, perform, libcall, libcall_word, call, num, int,
  str, word, bad_access, out_of_fuel,
}

-- `get_kernel_symbol_addr`: without a line of output the number is read from bytes that were never
-- written.
pub get_kernel_symbol_addr : String → M ℕ
unfolding libcall_word perform
get_kernel_symbol_addr symbol = do
  perform
      (call "snprintf" (str "nm /System/Library/Kernels/kernel | grep \"%s\"$" ∷ str symbol ∷ []))
  fp ← libcall_word "popen" []
  if fp == 0 then stop bad_access else do
    line ← libcall_word "fgets" (num 17 ∷ num fp ∷ [])
    perform (call "pclose" (num fp ∷ []))
    if line == 0 then stop bad_access else libcall_word "strtoull" (num 16 ∷ [])

-- What the parent does: when a child has ended it gives the round back.
unfoldable pub reap : M ⊤
unfolding perform hypercall_raw
reap = perform (call "waitpid" []) >> (hypercall_raw Nyx.release (word 0) >> skip)

module _ (target_file : String) (program_size : ℕ) where
  -- What a child does: it becomes the program, and comes back only if this fails.
  unfoldable pub become_program : M ⊤
  unfolding perform
  become_program = perform (call "execve" (str target_file ∷ []))

  -- The loop of `execute_program`; `cpid` is 0 in a child.
  pub execute_loop : ℕ → ℤ → M ⊤
  unfolding libcall become_program reap
  execute_loop zero cpid = stop out_of_fuel
  execute_loop (suc fuel) cpid =
      if is_zero cpid
      then become_program >> execute_loop fuel cpid
      else reap >> (libcall "fork" [] >>= execute_loop fuel)

  -- `load_program` up to `execute_program`
  pub store_program : ℕ → M ⊤
  unfolding libcall perform
  store_program buf = do
    payload_file ← libcall "open" (str target_file ∷ [])
    perform (call "write" (int payload_file ∷ num buf ∷ num program_size ∷ []))
    perform (call "close" (int payload_file ∷ []))

  -- `load_program` and `execute_program`
  pub load_program : ℕ → ℕ → M ⊤
  unfolding libcall store_program execute_loop
  load_program fuel buf = store_program buf >> (libcall "fork" [] >>= execute_loop fuel)

  -- `main` up to the program's buffer: the addresses of the panic handlers, and of the buffer.
  pub open_buffer : M (ℕ × ℕ × ℕ)
  unfolding libcall_word perform get_kernel_symbol_addr
  open_buffer = do
    panic_handler ← get_kernel_symbol_addr "T _panic"
    panic_handler64 ← get_kernel_symbol_addr "T _panic_64"
    program_buffer ← libcall_word "mmap" (num 0xabcd0000 ∷ num program_size ∷ [])
    perform (call "memset" (num program_buffer ∷ num 0xff ∷ num program_size ∷ []))
    pure (panic_handler, panic_handler64, program_buffer)

  -- `main` up to `load_program`; the result is the program's buffer.
  pub get_program : M ℕ
  unfolding open_buffer hypercall_raw
  get_program = do
    (panic_handler, panic_handler64, program_buffer) ← open_buffer
    hypercall_raw Nyx.lock (word 0)
    hypercall_raw Nyx.acquire (word 0)
    hypercall_raw Nyx.release (word 0)
    hypercall_raw Nyx.submit_panic (word panic_handler)
    hypercall_raw Nyx.submit_panic (word panic_handler64)
    hypercall_raw Nyx.get_program (word program_buffer)
    pure program_buffer

  -- `main`
  loader_main : ℕ → M ⊤
  unfolding get_program load_program
  loader_main fuel = get_program >>= load_program fuel
