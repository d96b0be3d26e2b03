-- ===== src/Windows/Font/Laws.antt =====
-- What the program that fuzzes fonts keeps: the fuzzing cycle, and the objects of gdiplus.
use package.text.Mathlib.Text.{◌==◌ as str_eq}
use kafl_targets.Base.{ℕ, suc, ◌+◌, ◌≡◌, String, [], ◌∷◌, arith, if◌then◌else◌}
use kafl_targets.Nyx.{Payload, Range}
use kafl_targets.Machine.{
  Env, History, After, After-then, After-repeat, ◌>>◌, repeat, call, perform,
}
use kafl_targets.Cycle.{AtBare, AtIdle, AtRunning, InOrder}
use kafl_targets.Windows.Regions.{System, drop_va}
use kafl_targets.Windows.Regions.Laws.{drop_va-phase}
use kafl_targets.Windows.Session.{install_handler, open_session}
use kafl_targets.Windows.Session.Laws.{install_handler-phase, open_session-phase}
use kafl_targets.Windows.Font.{
  available_style, draw, load_font, use_family, try_font, add_memory_font, font_round, font_main,
}

use_family-phase :
    (fonts : ℕ) (env : Env) (h : History)
    → AtRunning h
    → After (λ _. AtRunning) InOrder (use_family fonts env h)
unfolding use_family available_style load_font draw
use_family-phase fonts env h at_start = ground arith

try_font-phase :
    (p : Payload) (env : Env) (h : History)
    → AtRunning h
    → After (λ _. AtRunning) InOrder (try_font p env h)
unfolding try_font add_memory_font
try_font-phase p env h at_start = grind (arith, use_family-phase)

font_round-phase :
    (env : Env) (h : History) → AtIdle h → After (λ _. AtIdle) InOrder (font_round env h)
unfolding font_round
font_round-phase env h at_start = grind (arith, try_font-phase)

-- The calls of a name so far.
abbrev count : String → History → ℕ
count name [] = 0
count name (call other args ∷ h) =
    let rest = count name h in if str_eq other name then suc rest else rest
count name (_ ∷ h) = count name h

-- `k` font collections are in use; all fonts and drawing surfaces that were made are deleted.
abbrev Held : ℕ → History → Type 0
Held k h =
    (count "new PrivateFontCollection" h ≡ k + count "delete PrivateFontCollection" h)
    × (count "new Font" h ≡ count "delete Font" h)
    × (count "new Graphics" h ≡ count "delete Graphics" h)

-- All font collections, fonts and drawing surfaces that were made are deleted.
abbrev pub Deleted : History → Type 0
Deleted = Held 0

use_family-Held :
    (k fonts : ℕ) (env : Env) (h : History)
    → Held k h
    → After (λ _. Held k) (λ _. Unit {0}) (use_family fonts env h)
unfolding use_family available_style load_font draw
use_family-Held k fonts env h before = ground arith

try_font-Deleted :
    (p : Payload) (env : Env) (h : History)
    → Deleted h
    → After (λ _. Deleted) (λ _. Unit {0}) (try_font p env h)
unfolding try_font add_memory_font
try_font-Deleted p env h before = grind (arith, use_family-Held 1)

-- If all font collections, fonts and drawing surfaces that were made are deleted, so they are again
-- after a round of the program that fuzzes fonts, on each way through it that comes to an end.
pub font_round-Deleted :
    (env : Env) (h : History) → Deleted h → After (λ _. Deleted) (λ _. Unit {0}) (font_round env h)
unfolding font_round
font_round-Deleted env h before = grind (arith, try_font-Deleted)

start-phase : (env : Env) → After (λ _. AtBare) InOrder (perform (call "GdiplusStartup" []) env [])
unfolding perform
start-phase env = ground arith

-- The program that fuzzes fonts keeps to the fuzzing cycle for any number of rounds, whatever the
-- address space and the ranges of the host: wherever it is cut off no call is out of order, and it
-- completes each round in the idle phase.
pub font_main-InOrder :
    (system : System) (ranges : History → ℕ → Range) (payload_size fuel n : ℕ) (env : Env)
    → After (λ _. AtIdle) InOrder (font_main system ranges payload_size fuel n env [])
unfolding font_main
font_main-InOrder system ranges payload_size fuel n env =
    let opened = open_session ranges payload_size in
    let rounds = repeat n font_round in
    After-then AtBare (λ _. AtIdle) InOrder (perform (call "GdiplusStartup" []))
      (drop_va system fuel >> (install_handler >> (opened >> rounds))) env [] (start-phase env)
      λ h1 q1.
        After-then AtBare (λ _. AtIdle) InOrder (drop_va system fuel)
          (install_handler >> (opened >> rounds)) env h1 (drop_va-phase system env fuel h1 q1)
          λ h2 q2.
            After-then AtBare (λ _. AtIdle) InOrder install_handler (opened >> rounds) env h2
              (install_handler-phase env h2 q2)
              λ h3 q3.
                After-then AtIdle (λ _. AtIdle) InOrder opened rounds env h3
                  (open_session-phase ranges env payload_size h3 q3)
                  (After-repeat AtIdle InOrder font_round env (font_round-phase env) n)
