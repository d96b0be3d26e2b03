-- ===== src/Windows/Image/Runs.antt =====
-- How often the program that fuzzes images (windows_x86_64/src/userspace/gdiplus.cpp) runs its target.
use kafl_targets.Base.{ℕ, ⊤, suc, ◌+◌, ◌≤◌, ◌<◌, ◌≡◌, ◌≢◌, [], ◌∷◌, arith}
use kafl_targets.Nyx.{Range, Payload}
use kafl_targets.Machine.{
  Env, History, Returns, M, After-then, After-bind, After-rounds, live, call, target, num, ◌>>◌,
  ◌>>=◌, repeat,
}
use kafl_targets.Cycle.{runs, HasRun}
use kafl_targets.Windows.Regions.{System, drop_va}
use kafl_targets.Windows.Regions.Laws.{Covers, drop_va-Returns}
use kafl_targets.Windows.Session.{open_session}
use kafl_targets.Windows.Session.Runs.{open_session-runs}
use kafl_targets.Windows.Image.{
  locate_payload, write_payload_file, try_image, from_file, image_round, start, name_payload,
  prepare, image_main,
}

-- The path of the temporary files is short, and `Image::FromFile` makes an object.
pub record Succeeds (env : Env) : Type 0 where
  pub short_path : (h : History) → env.rax h (call "GetTempPathA" (num 260 ∷ [])) ≤ 247
  pub loads : (h : History) (w : ℕ) → env.rax h (call "Image::FromFile" (num w ∷ [])) ≢ 0

module _ (env : Env) (succeeds : Succeeds env) where
  pub locate_payload-runs : Returns (λ _. HasRun 0) (locate_payload (live env) [])
  unfolding locate_payload
  locate_payload-runs = grind (arith, succeeds.short_path)

  pub start-runs : (h : History) → HasRun 0 h → Returns (λ _. HasRun 0) (start (live env) h)
  unfolding start
  start-runs h so_far = ground arith

  name_payload-runs :
      (h : History) → HasRun 0 h → Returns (λ _. HasRun 0) (name_payload (live env) h)
  unfolding name_payload
  name_payload-runs h so_far = ground arith

  try_image-runs :
      (w : ℕ) (p : Payload) (k : ℕ) (h : History)
      → HasRun k h
      → Returns (λ _. HasRun (suc k)) (try_image w p (live env) h)
  unfolding try_image from_file
  try_image-runs w p k h so_far = ground (arith, succeeds.loads (target p ∷ h) w)

  pub image_round-runs :
      (w k : ℕ) (h : History)
      → HasRun k h
      → Returns (λ _. HasRun (suc k)) (image_round w (live env) h)
  unfolding image_round write_payload_file
  image_round-runs w k h so_far = grind (arith, try_image-runs w)

  module _ (system : System) (covers : Covers system) (ranges : History → ℕ → Range) where
    prepare-runs :
        (fuel : ℕ) (h : History)
        → system.maximum < system.minimum + fuel
        → 0 < fuel
        → HasRun 0 h
        → Returns (λ _. HasRun 0) (prepare system fuel (live env) h)
    unfolding prepare
    prepare-runs fuel h enough some_fuel so_far =
        After-then (HasRun 0) (λ _. HasRun 0) (λ _. ⊥) start (drop_va system fuel >> name_payload)
          (live env) h (start-runs h so_far)
          λ h1 q1.
            After-then (HasRun 0) (λ _. HasRun 0) (λ _. ⊥) (drop_va system fuel) name_payload
              (live env) h1 (drop_va-Returns system env fuel 0 h1 covers enough some_fuel q1)
              name_payload-runs

    -- Where every call comes back, the path of the temporary files has at most 247 bytes, every
    -- image gives an object, and `VirtualQuery` succeeds for every address below the maximum, with
    -- regions that are not empty and end inside the address space, the program that fuzzes images
    -- completes any number of rounds of its endless loop, and has run the target exactly once in each.
    pub image_main-runs :
        (payload_size fuel n : ℕ)
        → system.maximum < system.minimum + fuel
        → 0 < fuel
        → Returns (λ _ h'. runs h' ≡ n) (image_main system ranges payload_size fuel n (live env) [])
    unfolding image_main
    image_main-runs payload_size fuel n enough some_fuel =
        After-then (HasRun 0) (λ _. HasRun n) (λ _. ⊥) locate_payload
          (prepare system fuel >>= rounds) (live env) [] locate_payload-runs
          λ h1 q1.
            After-bind (λ _. HasRun 0) (λ _. HasRun n) (λ _. ⊥) (prepare system fuel) rounds
              (live env) h1 (prepare-runs fuel h1 enough some_fuel q1)
              λ w h2 q2.
                After-then (HasRun 0) (λ _. HasRun n) (λ _. ⊥) (open_session ranges payload_size)
                  (repeat n (image_round w)) (live env) h2
                  (open_session-runs 0 env ranges payload_size h2 q2)
                  λ h3 q3.
                    After-rounds HasRun (λ _. ⊥) (image_round w) (live env) (image_round-runs w) n 0
                      n h3 (omega arith) q3
      where
        rounds : ℕ → M ⊤
        rounds w = open_session ranges payload_size >> repeat n (image_round w)
