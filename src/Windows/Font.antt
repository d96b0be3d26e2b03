-- ===== src/Windows/Font.antt =====
-- The program that fuzzes the fonts of gdiplus (windows_x86_64/src/userspace/gdiplus_loadfont.cpp).
-- Gdiplus is a library; a null pointer is 0.
pub mod Laws
pub mod Runs
use kafl_targets.Base.{ℕ, ⊤, Option, none, some, not, ◌&&◌, [], ◌∷◌, ◌==◌, if◌then◌else◌}
use kafl_targets.Base.Int.{ℤ, is_zero}
use kafl_targets.Nyx
use kafl_targets.Nyx.{Payload, Range}
use kafl_targets.Machine.{
  M, pure, skip, stop, when, ◌>>=◌, ◌>>◌, hypercall_raw, perform, libcall, libcall_word, call, num,
  int, str, word, History, payload, target, repeat, bad_access,
}
use kafl_targets.Windows.Regions.{System, drop_va}
use kafl_targets.Windows.Session.{install_handler, open_session}

-- The first style of regular, bold and italic that the family has; `none` is -1.
available_style : ℕ → M (Option ℕ)
unfolding libcall
available_style families = do
  regular ← libcall "IsStyleAvailable" (num families ∷ num 0 ∷ [])
  if not (is_zero regular) then pure (some 0) else do
    bold ← libcall "IsStyleAvailable" (num families ∷ num 1 ∷ [])
    if not (is_zero bold) then pure (some 1) else do
      italic ← libcall "IsStyleAvailable" (num families ∷ num 2 ∷ [])
      if not (is_zero italic) then pure (some 2) else pure none

-- A text is drawn in the font.
draw : ℕ → M ⊤
unfolding libcall_word perform
draw font = do
  point_f ← libcall_word "new PointF" []
  solid_brush ← libcall_word "new SolidBrush" []
  hdc ← libcall_word "GetDC" []
  graphics ← libcall_word "new Graphics" (num hdc ∷ [])
  if graphics == 0 then stop bad_access else do
    perform (call "DrawString" (num graphics ∷ num font ∷ num point_f ∷ num solid_brush ∷ []))
    perform (call "delete Graphics" (num graphics ∷ []))

-- The family is loaded in a style.
load_font : ℕ → ℕ → M ⊤
unfolding libcall libcall_word draw perform
load_font families style = do
  perform (call "GetFamilyName" (num families ∷ []))
  font ← libcall_word "new Font" (num style ∷ [])
  if font == 0 then stop bad_access else do
    status ← libcall "GetLastStatus" (num font ∷ [])
    when (is_zero status) (draw font)
    perform (call "delete Font" (num font ∷ []))

-- What is done with a collection of one family.
use_family : ℕ → M ⊤
unfolding libcall_word perform available_style load_font
use_family fonts = do
  families ← libcall_word "new FontFamily[]" (num 1 ∷ [])
  perform (call "GetFamilies" (num fonts ∷ num 1 ∷ num families ∷ []))
  if families == 0 then stop bad_access else do
    style ← available_style families
    elim style [ none ↦ skip | some s ↦ load_font families s ]

-- `AddMemoryFont`, the code under test, on a payload.
add_memory_font : ℕ → Payload → M ℤ
unfolding perform libcall
add_memory_font fonts p =
    perform (target p) >> libcall "AddMemoryFont" (num fonts ∷ int p.size ∷ [])

-- What a round does with a payload.
pub try_font : Payload → M ⊤
unfolding libcall_word perform add_memory_font use_family
try_font p = do
  fonts ← libcall_word "new PrivateFontCollection" []
  if fonts == 0 then stop bad_access else do
    status ← add_memory_font fonts p
    when (is_zero status) (do
      count ← libcall_word "GetFamilyCount" (num fonts ∷ [])
      when (count == 1) (use_family fonts))
    perform (call "delete PrivateFontCollection" (num fonts ∷ []))

-- One round of the loop of `main`.
pub font_round : M ⊤
unfolding hypercall_raw perform try_font
font_round = do
  hypercall_raw Nyx.user_fast_acquire (word 0)
  p ← payload
  try_font p
  hypercall_raw Nyx.release (word 0)
  skip

-- `main` up to its `n`-th round.
pub font_main : System → (History → ℕ → Range) → ℕ → ℕ → ℕ → M ⊤
unfolding perform
font_main system ranges payload_size fuel n = do
  perform (call "GdiplusStartup" [])
  drop_va system fuel
  install_handler
  open_session ranges payload_size
  repeat n font_round
