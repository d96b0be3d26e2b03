-- ===== src/MacOs/Loader/Debug.antt =====
-- The loader built with DEBUG_MODE (macOS_x86_64/loader/loader.c): the program comes from a
-- file, and when this fits the buffer.
use kafl_targets.Base.{
  ℕ, ⊤, ◌-◌, ◌^◌, ◌≤◌, ◌≡◌, ◌≢◌, ◌↔◌, String, [], ◌∷◌, ltb, ◌==◌, arith, if◌then◌else◌,
}
use kafl_targets.Base.Int.{ℤ, pos, negsuc}
use kafl_targets.Machine.{
  M, Env, History, stop, done, stopped, no_return, bad_access, ◌>>=◌, ◌>>◌, perform, libcall,
  libcall_word, call, num, str, live, NoBadAccess,
}
use kafl_targets.MacOs.Loader.{open_buffer, load_program}

-- `fread` of one item of this size: how many bytes it has written.
fread : ℕ → M ℕ
fread size env h =
    let e = call "fread" (num size ∷ []) in
    if env.resumes h e then done (env.rax h e) (e ∷ h) else stopped no_return (e ∷ h)

-- A `long` as a `size_t`.
abbrev to_size : ℤ → ℕ
to_size (pos n) = n
to_size (negsuc n) = 2 ^ 64 - n - 1

-- `readfile`, into a buffer of `size` bytes; `fseek` would read from a null stream.
readfile : ℕ → M ⊤
unfolding libcall_word libcall perform fread
readfile size = do
  fileptr ← libcall_word "fopen" (str "test" ∷ str "rb" ∷ [])
  if fileptr == 0 then stop bad_access else do
    perform (call "fseek" (num fileptr ∷ []))
    filelen ← libcall "ftell" (num fileptr ∷ [])
    perform (call "rewind" (num fileptr ∷ []))
    written ← fread (to_size filelen)
    if ltb size written then stop bad_access else perform (call "fclose" (num fileptr ∷ []))

-- `main`; `load_program` flushes the output first.
debug_main : String → ℕ → ℕ → M ⊤
unfolding readfile perform
debug_main target_file program_size fuel = do
  (panic_handler, panic_handler64, program_buffer) ← open_buffer target_file program_size
  readfile program_size
  perform (call "fflush" [])
  load_program target_file program_size fuel program_buffer

-- There is a file of this name, with this number of bytes.
record HoldsFile (env : Env) (bytes : ℕ) : Type 0 where
  opened : (h : History) → env.rax h (call "fopen" (str "test" ∷ str "rb" ∷ [])) ≢ 0
  sized : (h : History) (f : ℕ) → env.result h (call "ftell" (num f ∷ [])) ≡ pos bytes
  reads : (h : History) → env.rax h (call "fread" (num bytes ∷ [])) ≡ bytes

-- Where every call comes back, and the file can be opened and read, `readfile` stays in the buffer
-- exactly if the file is not longer; it does not look.
readfile_iff :
    (env : Env) (bytes size : ℕ) (h : History)
    → HoldsFile env bytes
    → NoBadAccess (readfile size (live env) h) ↔ (bytes ≤ size)
unfolding readfile fread
readfile_iff env bytes size h file =
    let opening = call "fopen" (str "test" ∷ str "rb" ∷ []) in
    let f = env.rax h opening in
    let before = call "fseek" (num f ∷ []) ∷ opening ∷ h in
    let ready = call "rewind" (num f ∷ []) ∷ call "ftell" (num f ∷ []) ∷ before in
    let sized = file.sized before f in
    let read = file.reads ready in
    (
      λ safe. ground (arith, file.opened h, sized, read),
      λ fits. ground (arith, file.opened h, sized, read),
    )
