-- ===== src/Uefi/Decompress.antt =====
-- The target that decompresses the payload (TestDecompressPkg/TestDecompress.c). UefiDecompressLib
-- is a parameter.
pub mod Laws
use kafl_targets.Base.{ℕ, ⊤, Bool, ◌+◌, ◌%◌, ◌^◌, [], ◌∷◌, ◌==◌, if◌then◌else◌}
use kafl_targets.Nyx
use kafl_targets.Machine.{
  M, pure, skip, ◌>>=◌, ◌>>◌, hypercall_raw, perform, libcall_word, call, num, str, word, History,
}
use kafl_targets.Harness.{Harness, under_test, length_of}
use kafl_targets.Uefi.Pool.{free_pool}

-- `EFI_ERROR`, and the sizes that `UefiDecompressGetInfo` has left in its output parameters.
pub record Decompressor : Type 0 where
  pub efi_error : ℕ → Bool
  pub destination_size : History → ℕ
  pub scratch_size : History → ℕ

-- The local variables at the label ERROR.
pub record Locals : Type 0 where
  pub status : ℕ
  pub scratch : ℕ
  pub destination : ℕ

-- `DestinationSize + 1`, of type UINT32.
abbrev pub padded : ℕ → ℕ
padded size = (size + 1) % 2 ^ 32

-- `InitTestHarness`; the addresses that it prints are left out.
pub init_harness : M ⊤
unfolding hypercall_raw perform
init_harness = do
  perform (call "Print" (str "Mapping info: UefiDecompressGetInfo is at %x\n" ∷ []))
  perform (call "Print" (str "Mapping info: DumpCpuContext is at %x\n" ∷ []))
  hypercall_raw Nyx.user_submit_mode (word Nyx.mode_64)
  skip

module _ (library : Decompressor) where
  -- What the library has written for `&DestinationSize` and `&ScratchSize`.
  abbrev sizes : M (ℕ × ℕ)
  sizes env h = pure (library.destination_size h, library.scratch_size h) env h

  -- `RunTestHarness` from the second allocation to the label ERROR.
  decompress : ℕ → ℕ → ℕ → M Locals
  unfolding perform libcall_word
  decompress status destination_size scratch = do
    destination ← libcall_word "AllocateZeroPool" (num (padded destination_size) ∷ [])
    if destination == 0
        then (perform (call "Print" (str "Error A%d\n" ∷ num status ∷ []))
            >> pure (record { status = status; scratch = scratch; destination = 0 }))
        else do
          s ← libcall_word "UefiDecompress" (num destination ∷ num scratch ∷ [])
          perform (
              call "Print"
                (str (if library.efi_error s then "Error D%d\n" else "Success! %d\n") ∷ num s ∷ []))
          pure (record { status = s; scratch = scratch; destination = destination })

  -- `RunTestHarness` up to the label ERROR.
  body : ℕ → M Locals
  unfolding decompress perform libcall_word
  body input_length = do
    perform (call "Print" (str "Start->" ∷ []))
    status ← libcall_word "UefiDecompressGetInfo" (num input_length ∷ [])
    found ← sizes
    if library.efi_error status
        then (perform (call "Print" (str "Error G%d\n" ∷ num status ∷ []))
            >> pure (record { status = status; scratch = 0; destination = 0 }))
        else do
          scratch ← libcall_word "AllocateZeroPool" (num found.1 ∷ [])
          if scratch == 0
              then (perform (call "Print" (str "Error A%d\n" ∷ num status ∷ []))
                  >> pure (record { status = status; scratch = 0; destination = 0 }))
              else decompress status found.0 scratch

  -- `RunTestHarness`
  pub run_harness : ℕ → M ℕ
  unfolding body free_pool
  run_harness input_length = do
    end ← body input_length
    free_pool end.scratch
    free_pool end.destination
    pure end.status

  -- The target, as the agent library is linked with it.
  abbrev pub decompress_harness : Harness
  decompress_harness = record {
    init = init_harness;
    run = λ p. under_test p (run_harness (length_of 64 p) >> skip);
  }
