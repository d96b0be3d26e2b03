-- ===== src/Uefi/App/Laws.antt =====
-- What the DXE harness keeps, from loading the driver on: the fuzzing cycle.
use kafl_targets.Base.{ℕ, ◌≡◌, refl, [], ◌∷◌, Bool, false, arith}
use kafl_targets.Machine.{Env, History, Event, call, str, After, After-bind, Returns, live}
use kafl_targets.Cycle.{AtBare, AtIdle, InOrder, runs, HasRun}
use kafl_targets.Harness.{Harness, KeepsCycle, Completes}
use kafl_targets.Uefi.Dxe.{initialize, protocol}
use kafl_targets.Uefi.Dxe.Laws.{
  initialize-phase, initialize-runs, harness_run-phase, harness_run-runs,
}
use kafl_targets.Uefi.App.{app_main, load_and_fuzz}

module _ (efi_error : ℕ → Bool) (harness : Harness) (env : Env) where
  app_main-phase :
      KeepsCycle harness env
      → (buffer n : ℕ) (h : History) → AtBare h
      → After (λ _. AtIdle) InOrder (app_main efi_error (protocol harness buffer) n env h)
  unfolding app_main protocol
  app_main-phase keeps buffer n h at_start =
      let print = call "Print" (str "System Table address: 0x%08x\n" ∷ []) in
      let located = call "LocateProtocol" [] ∷ print ∷ h in
      let at_bare : AtBare located = ground arith in
      ground (arith, harness_run-phase harness env keeps buffer n located at_bare)

  -- Linked with a target that leaves the fuzzing cycle to the harness, the DXE driver, loaded and then
  -- run for any number of rounds by the application, keeps to the cycle: wherever it is cut off, also
  -- where the driver cannot install its protocol or the application does not find it, no call is out
  -- of order, and it completes each round in the idle phase.
  pub load_and_fuzz-InOrder :
      (n : ℕ)
      → KeepsCycle harness env
      → After (λ _. AtIdle) InOrder (load_and_fuzz efi_error harness n env [])
  unfolding load_and_fuzz
  load_and_fuzz-InOrder n keeps =
      After-bind (λ _. AtBare) (λ _. AtIdle) InOrder (initialize efi_error)
        (λ buffer. app_main efi_error (protocol harness buffer) n) env []
        (initialize-phase efi_error env [] refl) (λ buffer. app_main-phase keeps buffer n)

  app_main-runs :
      Completes harness env
      → ((h : History) (e : Event) → efi_error (env.rax h e) ≡ false)
      → (buffer n : ℕ) (h : History) → HasRun 0 h
      → Returns (λ _. HasRun n) (app_main efi_error (protocol harness buffer) n (live env) h)
  unfolding app_main protocol
  app_main-runs completes located buffer n h start =
      grind (arith, located, harness_run-runs harness env completes buffer n)

  -- Where every call comes back, none with an error, and the target comes back too, the DXE driver
  -- that the application runs completes any number of rounds of its endless loop, and has run the
  -- target exactly once in each.
  load_and_fuzz-runs :
      (n : ℕ)
      → Completes harness env
      → ((h : History) (e : Event) → efi_error (env.rax h e) ≡ false)
      → Returns (λ _ h'. runs h' ≡ n) (load_and_fuzz efi_error harness n (live env) [])
  unfolding load_and_fuzz
  load_and_fuzz-runs n completes located =
      After-bind (λ _. HasRun 0) (λ _. HasRun n) (λ _. ⊥) (initialize efi_error)
        (λ buffer. app_main efi_error (protocol harness buffer) n) (live env) []
        (initialize-runs efi_error env [] located refl)
        (λ buffer. app_main-runs completes located buffer n)
