-- ===== src/Windows/Font/Runs.antt =====
-- How often the program that fuzzes fonts (windows_x86_64/src/userspace/gdiplus_loadfont.cpp) runs its
-- target.
use kafl_targets.Base.{ℕ, suc, ◌+◌, ◌<◌, ◌≡◌, ◌≢◌, refl, [], ◌∷◌, arith}
use kafl_targets.Nyx.{Payload, Range}
use kafl_targets.Machine.{
  Env, History, Returns, After-then, After-rounds, live, call, num, perform, ◌>>◌, repeat,
}
use kafl_targets.Cycle.{runs, HasRun}
use kafl_targets.Windows.Regions.{System, drop_va}
use kafl_targets.Windows.Regions.Laws.{Covers, drop_va-Returns}
use kafl_targets.Windows.Session.{open_session, install_handler}
use kafl_targets.Windows.Session.Runs.{open_session-runs}
use kafl_targets.Windows.Font.{
  available_style, draw, load_font, use_family, try_font, add_memory_font, font_round, font_main,
}

-- Gdiplus makes the objects that it is asked for.
pub record Makes (env : Env) : Type 0 where
  pub fonts : (h : History) → env.rax h (call "new PrivateFontCollection" []) ≢ 0
  pub families : (h : History) → env.rax h (call "new FontFamily[]" (num 1 ∷ [])) ≢ 0
  pub font : (h : History) (style : ℕ) → env.rax h (call "new Font" (num style ∷ [])) ≢ 0
  pub graphics : (h : History) (hdc : ℕ) → env.rax h (call "new Graphics" (num hdc ∷ [])) ≢ 0

module _ (env : Env) (makes : Makes env) where
  draw-runs :
      (font k : ℕ) (h : History) → HasRun k h → Returns (λ _. HasRun k) (draw font (live env) h)
  unfolding draw
  draw-runs font k h so_far = grind (arith, makes.graphics)

  load_font-runs :
      (families style k : ℕ) (h : History)
      → HasRun k h
      → Returns (λ _. HasRun k) (load_font families style (live env) h)
  unfolding load_font
  load_font-runs families style k h so_far = grind (arith, makes.font, draw-runs)

  use_family-runs :
      (fonts k : ℕ) (h : History)
      → HasRun k h
      → Returns (λ _. HasRun k) (use_family fonts (live env) h)
  unfolding use_family available_style
  use_family-runs fonts k h so_far = grind (arith, makes.families, load_font-runs)

  try_font-runs :
      (p : Payload) (k : ℕ) (h : History)
      → HasRun k h
      → Returns (λ _. HasRun (suc k)) (try_font p (live env) h)
  unfolding try_font add_memory_font
  try_font-runs p k h so_far = grind (arith, makes.fonts, use_family-runs)

  pub font_round-runs :
      (k : ℕ) (h : History) → HasRun k h → Returns (λ _. HasRun (suc k)) (font_round (live env) h)
  unfolding font_round
  font_round-runs k h so_far = grind (arith, try_font-runs)

  -- Where every call comes back, gdiplus makes the objects that it is asked for, and `VirtualQuery`
  -- succeeds for every address below the maximum, with regions that are not empty and end inside the
  -- address space, the program that fuzzes fonts completes any number of rounds of its endless loop,
  -- and has run the target exactly once in each.
  font_main-runs :
      (system : System) (ranges : History → ℕ → Range) (payload_size fuel n : ℕ)
      → Covers system
      → system.maximum < system.minimum + fuel
      → 0 < fuel
      → Returns (λ _ h'. runs h' ≡ n) (font_main system ranges payload_size fuel n (live env) [])
  unfolding font_main
  font_main-runs system ranges payload_size fuel n covers enough some_fuel =
      let opened = open_session ranges payload_size in
      let rounds = repeat n font_round in
      After-then (HasRun 0) (λ _. HasRun n) (λ _. ⊥) (perform _)
        (drop_va system fuel >> (install_handler >> (opened >> rounds))) (live env) []
        (unfold perform in refl)
        λ h1 q1.
          After-then (HasRun 0) (λ _. HasRun n) (λ _. ⊥) (drop_va system fuel)
            (install_handler >> (opened >> rounds)) (live env) h1
            (drop_va-Returns system env fuel 0 h1 covers enough some_fuel q1)
            λ h2 q2.
              After-then (HasRun 0) (λ _. HasRun n) (λ _. ⊥) install_handler (opened >> rounds)
                (live env) h2 (unfold install_handler in ground arith)
                λ h3 q3.
                  After-then (HasRun 0) (λ _. HasRun n) (λ _. ⊥) opened rounds (live env) h3
                    (open_session-runs 0 env ranges payload_size h3 q3)
                    λ h4 q4.
                      After-rounds HasRun (λ _. ⊥) font_round (live env) font_round-runs n 0 n h4
                        (omega arith) q4
