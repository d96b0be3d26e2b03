-- ===== src/Windows/Regions/Laws.antt =====
-- When the walk over the address space ends.
use kafl_targets.Base.{
  ℕ, zero, suc, ◌+◌, ◌<◌, ◌^◌, ◌≡◌, some, none, [], ◌∷◌, arith, ltb, true, Bool-cases, inl, inr,
}
use kafl_targets.Cycle.{AtBare, InOrder, HasRun}
use kafl_targets.Machine.{
  Env, History, After, Returns, Unfinished, Unfinished-bind, After-bind, After-then, perform, live,
  call, num,
}
use kafl_targets.Windows.Regions.{
  Region, System, print_image, query_region, region_loop, drop_va, next,
}

-- `VirtualQuery` succeeds for every address below the maximum, with a region that is not empty and
-- ends inside the address space.
abbrev pub Covers : System → Type 0
Covers system =
    (h : History) (a : ℕ)
    → a < system.maximum
    → (r : Region) × (system.query h a ≡ some r)
      × (0 < r.region_size)
      × (a + r.region_size < 2 ^ 64)

module _ (system : System) (env : Env) where
  -- The size of a region that was found, and the runs of the target so far.
  abbrev Found : ℕ → ℕ → ℕ → History → Type 0
  Found k a s h = (0 < s) × (a + s < 2 ^ 64) × HasRun k h

  query_region-Found :
      Covers system
      → (k a : ℕ) (h : History) → a < system.maximum
      → HasRun k h
      → Returns (Found k a) (query_region system a (live env) h)
  unfolding query_region print_image
  query_region-Found covers k a h below so_far =
      let (r, e, positive, inside) = covers (call "VirtualQuery" (num a ∷ []) ∷ h) a below in
      ground (arith, e, positive, inside)

  region_loop-Returns :
      Covers system
      → (fuel k a : ℕ) (h : History) → 0 < fuel
      → system.maximum < a + fuel
      → HasRun k h
      → Returns (λ _. HasRun k) (region_loop system fuel a (live env) h)
  unfolding region_loop
  region_loop-Returns covers zero k a h some_fuel enough so_far = absurd (omega arith)
  region_loop-Returns covers (suc fuel) k a h some_fuel enough so_far =
      elim (Bool-cases (ltb a system.maximum)) [
        | inr done ↦ rw done so_far
        | inl more ↦
            let below : a < system.maximum = ground arith in
            rw more (
              After-bind (Found k a) (λ _. HasRun k) (λ _. ⊥) (query_region system a)
                (λ size. region_loop system fuel (next a size)) (live env) h
                (query_region-Found covers k a h below so_far)
                (λ s h' found.
                  region_loop-Returns covers fuel k (next a s) h' (omega arith) (ground arith)
                    found.2))
      ]

  -- If `VirtualQuery` succeeds for every address below the maximum, with regions that are not empty and
  -- end inside the address space, and every call comes back, the walk over the address space ends: it
  -- takes at most one round for each address, and does not run the target.
  pub drop_va-Returns :
      (fuel k : ℕ) (h : History)
      → Covers system
      → system.maximum < system.minimum + fuel
      → 0 < fuel
      → HasRun k h
      → Returns (λ _. HasRun k) (drop_va system fuel (live env) h)
  unfolding drop_va
  drop_va-Returns fuel k h covers enough some_fuel so_far =
      After-then (HasRun k) (λ _. HasRun k) (λ _. ⊥) (perform (call "GetSystemInfo" []))
        (region_loop system fuel system.minimum) (live env) h (ground arith)
        (λ h' q. region_loop-Returns covers fuel k system.minimum h' some_fuel enough q)

  -- If `VirtualQuery` fails for an address below the maximum, the walk stays at this address: no number
  -- of rounds is enough.
  region_loop-Unfinished :
      (fuel a : ℕ) (h : History)
      → a < system.maximum
      → a < 2 ^ 64
      → ((h' : History) → system.query h' a ≡ none)
      → Unfinished (region_loop system fuel a (live env) h)
  unfolding region_loop query_region
  region_loop-Unfinished zero a h below inside fails = tt
  region_loop-Unfinished (suc fuel) a h below inside fails =
      let more : ltb a system.maximum ≡ true = ground arith in
      let stays : next a 0 ≡ a = omega arith in
      rw more (
        Unfinished-bind (λ s _. s ≡ 0) (query_region system a)
          (λ size. region_loop system fuel (next a size)) (live env) h
          (ground (arith, fails (call "VirtualQuery" (num a ∷ []) ∷ h)))
          (λ s h' zero_size.
            rw (zero_size, stays) (region_loop-Unfinished fuel a h' below inside fails)))

  query_region-phase :
      (a : ℕ) (h : History) → AtBare h → After (λ _. AtBare) InOrder (query_region system a env h)
  unfolding query_region print_image
  query_region-phase a h at_start = ground arith

  region_loop-phase :
      (fuel a : ℕ) (h : History)
      → AtBare h
      → After (λ _. AtBare) InOrder (region_loop system fuel a env h)
  unfolding region_loop
  region_loop-phase zero a h at_start = ground arith
  region_loop-phase (suc fuel) a h at_start = elim (Bool-cases (ltb a system.maximum)) [
    | inr done ↦ rw done at_start
    | inl more ↦ rw more (
        After-bind (λ _. AtBare) (λ _. AtBare) InOrder (query_region system a)
          (λ size. region_loop system fuel (next a size)) env h (query_region-phase a h at_start)
          (λ s. region_loop-phase fuel (next a s)))
  ]

  pub drop_va-phase :
      (fuel : ℕ) (h : History) → AtBare h → After (λ _. AtBare) InOrder (drop_va system fuel env h)
  unfolding drop_va
  drop_va-phase fuel h at_start =
      After-then AtBare (λ _. AtBare) InOrder (perform (call "GetSystemInfo" []))
        (region_loop system fuel system.minimum) env h (ground arith)
        (region_loop-phase fuel system.minimum)
