-- ===== src/Uefi/Bmp.antt =====
-- The target that converts a bitmap (TestBMPPkg/TestBMP.c). BmpSupportLib is a parameter.
pub mod Laws
use kafl_targets.Base.{ℕ, ⊤, [], ◌∷◌}
use kafl_targets.Nyx
use kafl_targets.Machine.{
  M, pure, skip, ◌>>=◌, ◌>>◌, hypercall_raw, perform, libcall_word, call, num, str, word, History,
}
use kafl_targets.Harness.{Harness, under_test, length_of}
use kafl_targets.Uefi.Pool.{free_pool}

-- `InitTestHarness`; the address that it prints is left out.
pub init_harness : M ⊤
unfolding hypercall_raw perform
init_harness = do
  perform (call "Print" (str "Mapping info: TranslateBmpToGopBlt is at %x\n" ∷ []))
  hypercall_raw Nyx.user_submit_mode (word Nyx.mode_64)
  skip

-- `blt` is what `TranslateBmpToGopBlt` has left in its output parameter `Blt`, NULL before.
module _ (blt : History → ℕ) where
  abbrev translated : M ℕ
  translated env h = pure (blt h) env h

  -- `RunTestHarness`
  pub run_harness : ℕ → M ℕ
  unfolding libcall_word free_pool
  run_harness input_size = do
    status ← libcall_word "TranslateBmpToGopBlt" (num input_size ∷ [])
    b ← translated
    free_pool b
    pure status

  -- The target, as the agent library is linked with it.
  abbrev pub bmp_harness : Harness
  bmp_harness = record {
    init = init_harness;
    run = λ p. under_test p (run_harness (length_of 64 p) >> skip);
  }
