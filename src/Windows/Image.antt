-- ===== src/Windows/Image.antt =====
-- The program that fuzzes the images of gdiplus (windows_x86_64/src/userspace/gdiplus.cpp). Gdiplus is
-- a library; a null pointer and INVALID_HANDLE_VALUE are 0.
pub mod Laws
pub mod Runs
pub mod Standalone
use kafl_targets.Base.{ℕ, ⊤, ◌+◌, ltb, ◌||◌, [], ◌∷◌, ◌==◌, if◌then◌else◌}
use kafl_targets.Base.Int.{ℤ, is_zero}
use kafl_targets.Nyx
use kafl_targets.Nyx.{Payload, Range}
use kafl_targets.Machine.{
  M, Val, pure, skip, stop, when, ◌>>=◌, ◌>>◌, hypercall_raw, hprintf, perform, libcall,
  libcall_word, call, num, str, word, History, payload, target, repeat, bad_access,
}
use kafl_targets.Harness.{length_of}
use kafl_targets.Windows.Regions.{System, drop_va}
use kafl_targets.Windows.Session.{user_abort, install_handler, open_session}

-- `MAX_PATH` of the Windows headers, the size of `payload_file`.
abbrev max_path : ℕ
max_path = 260

-- `char2wchar`, a character being two bytes wide.
pub char2wchar : Val → M ℕ
unfolding libcall_word
char2wchar p = do
  n_chars ← libcall_word "MultiByteToWideChar" (p ∷ num 0 ∷ [])
  pwcs_name ← libcall_word "VirtualAlloc" (num (n_chars + n_chars) ∷ [])
  libcall_word "MultiByteToWideChar" (p ∷ num pwcs_name ∷ num n_chars ∷ [])
  pure pwcs_name

-- The first steps of `main`: a backslash and the eleven bytes of "payload.emf" are written behind the
-- path of the temporary files. A zero has to be left behind them, since the name is then read as a
-- text.
pub locate_payload : M ⊤
unfolding libcall_word perform
locate_payload = do
  perform (call "memset" (str "payload_file" ∷ num 0 ∷ num max_path ∷ []))
  tmp_path_len ← libcall_word "GetTempPathA" (num max_path ∷ [])
  if ltb (tmp_path_len + 1 + 11) max_path
      then perform (call "memcpy" (num tmp_path_len ∷ str "\\payload.emf" ∷ []))
      else stop bad_access

-- The names of the payload file are locked.
pub lock_names : ℕ → M ⊤
unfolding libcall hprintf
lock_names payload_file_w = do
  narrow ← libcall "VirtualLock" (str "payload_file" ∷ [])
  if is_zero narrow then hprintf "[+] WARNING: Virtuallock failed on payload names: %u" [] else do
    wide ← libcall "VirtualLock" (num payload_file_w ∷ [])
    when (is_zero wide) (hprintf "[+] WARNING: Virtuallock failed on payload names: %u" [])

-- `write_payload_file`
pub write_payload_file : Payload → M ⊤
unfolding libcall_word user_abort perform
write_payload_file p = do
  payload_file_handle ← libcall_word "CreateFileA" []
  when (payload_file_handle == 0) user_abort
  perform (call "WriteFile" (num payload_file_handle ∷ num (length_of 32 p) ∷ []))
  perform (call "CloseHandle" (num payload_file_handle ∷ []))

-- `Image::FromFile`, the code under test, on the payload in the file of this name.
from_file : ℕ → Payload → M ℕ
unfolding perform libcall_word
from_file payload_file_w p =
    perform (target p) >> libcall_word "Image::FromFile" (num payload_file_w ∷ [])

-- The image in the payload file is loaded, and drawn if it is one.
pub try_image : ℕ → Payload → M ⊤
unfolding from_file libcall_word libcall perform
try_image payload_file_w p = do
  image ← from_file payload_file_w p
  if image == 0 then stop bad_access else do
    status ← libcall "GetLastStatus" (num image ∷ [])
    when (is_zero status) (do
      hdc ← libcall_word "GetDC" []
      perform (call "Graphics" (num hdc ∷ []))
      perform (call "DrawImage" (num image ∷ []))
      perform (call "~Graphics" []))
    perform (call "delete Image" (num image ∷ []))

-- One round of the loop of `main`.
pub image_round : ℕ → M ⊤
unfolding hypercall_raw perform write_payload_file try_image
image_round payload_file_w = do
  hypercall_raw Nyx.user_fast_acquire (word 0)
  p ← payload
  write_payload_file p
  try_image payload_file_w p
  hypercall_raw Nyx.release (word 0)
  skip

-- `main` up to the walk over the address space.
pub start : M ⊤
unfolding perform libcall
start = do
  libcall "VirtualLock" (str "image" ∷ [])
  libcall "VirtualLock" (str "status" ∷ [])
  perform (call "GdiplusStartup" [])

-- `main` behind it, up to the allocation of the payload buffer; the result is the wide name of the
-- payload file.
name_payload : M ℕ
unfolding perform hprintf char2wchar install_handler lock_names
name_payload = do
  hprintf "[+] payload location %s\n" (str "payload_file" ∷ [])
  payload_file_w ← char2wchar (str "payload_file")
  perform (call "wprintf" (num payload_file_w ∷ []))
  install_handler
  lock_names payload_file_w
  pure payload_file_w

-- `main` behind the name of the payload file, up to the payload buffer.
pub prepare : System → ℕ → M ℕ
unfolding start name_payload
prepare system fuel = start >> (drop_va system fuel >> name_payload)

-- `main` up to its `n`-th round.
pub image_main : System → (History → ℕ → Range) → ℕ → ℕ → ℕ → M ⊤
unfolding locate_payload prepare
image_main system ranges payload_size fuel n =
    locate_payload
    >> (prepare system fuel >>= λ payload_file_w.
        open_session ranges payload_size >> repeat n (image_round payload_file_w))
