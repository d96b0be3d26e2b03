-- ===== src/Windows/Standalone.antt =====
-- The stand-alone build (__NOKAFL) of the program that fuzzes fonts
-- (windows_x86_64/src/userspace/gdiplus_loadfont.cpp): the payload comes from a file, for five
-- rounds. The other gdiplus program, in Windows/Image/Standalone, has the same text for the file.
pub mod Laws
use kafl_targets.Base.{
  ℕ, zero, suc, ⊤, ◌+◌, ◌-◌, ◌%◌, ◌^◌, ltb, String, List, [], ◌∷◌, ◌==◌, if◌then◌else◌,
}
use kafl_targets.Base.Int.{ℤ, is_zero}
use kafl_targets.Machine.{
  M, pure, stop, ◌>>=◌, ◌>>◌, hprintf, perform, libcall_word, call, num, str, done, stopped,
  no_return, exited, bad_access,
}
use kafl_targets.Windows.Regions.{System, drop_va}
use kafl_targets.Windows.Session.{
  allocate_buffer, announce_buffer, advise_ranges, grow_working_set, submit_mode,
}
use kafl_targets.Windows.Font.{font_round}

-- `ReadFile`: whether it succeeds, and how many bytes it has written, which it returns through
-- `dwRead`.
read_file : ℕ → M (ℤ × ℕ)
read_file size env h =
    let e = call "ReadFile" (num size ∷ []) in
    if env.resumes h e
    then done (env.result h e, env.rax h e) (e ∷ h)
    else stopped no_return (e ∷ h)

-- `set_payload`, into a buffer of `payload_size` bytes whose first four are the size. A handle of
-- INVALID_HANDLE_VALUE is 0.
pub set_payload : ℕ → String → M ⊤
unfolding libcall_word read_file perform
set_payload payload_size path = do
  h_file ← libcall_word "CreateFile" (str path ∷ [])
  if h_file == 0 then stop (exited 0) else do
    size ← libcall_word "GetFileSize" (num h_file ∷ [])
    (ok, dw_read) ← read_file (size % 2 ^ 32)
    if ltb (payload_size - 4) dw_read
        then stop bad_access
        else if is_zero ok
        then stop (exited 0)
        else perform (call "CloseHandle" (num h_file ∷ []))

-- The arguments have to be the name of a file.
set_from : ℕ → List String → M ⊤
unfolding set_payload
set_from payload_size (path ∷ []) = set_payload payload_size path
set_from payload_size _ = stop (exited 1)

-- `main` from the buffer to the loop.
pub open_standalone : ℕ → List String → M ⊤
unfolding allocate_buffer set_from announce_buffer advise_ranges grow_working_set submit_mode
open_standalone payload_size args = allocate_buffer payload_size >>= λ payload_buffer.
    set_from payload_size args
    >> (announce_buffer payload_buffer >> (advise_ranges >> (grow_working_set >> submit_mode)))

-- The loop, with `n` of its rounds to come.
unfoldable pub iterations : M ⊤ → ℕ → ℕ → M ⊤
unfolding hprintf
iterations round zero c = pure tt
iterations round (suc n) c =
    hprintf "[+] Iter: %d\n" (num (c + 1) ∷ []) >> (round >> iterations round n (c + 1))

-- `main`
pub font_standalone : System → ℕ → ℕ → List String → M ⊤
unfolding perform open_standalone iterations
font_standalone system payload_size fuel args =
    perform (call "GdiplusStartup" [])
    >> (drop_va system fuel >> (open_standalone payload_size args >> iterations font_round 5 0))
