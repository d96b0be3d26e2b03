-- ===== src/Tests/Uefi.antt =====
-- The decompression and bitmap targets, with libraries that find small sizes.
use kafl_targets.Base.{leb, ◌≡◌, ◌^◌, refl, true, [], arith}
use kafl_targets.Machine.{Ends, Returns, live}
use kafl_targets.Uefi.Pool.{InUse}
use kafl_targets.Uefi.Decompress.{Decompressor, run_harness}
use kafl_targets.Uefi.Decompress.Laws.{decompress-InUse, decompress-backed, zero_pool, backed}
use kafl_targets.Tests.Samples.{quiet}

abbrev library : Decompressor
library = record {
  efi_error = λ status. leb (2 ^ 63) status;
  destination_size = λ h. 0x100;
  scratch_size = λ h. 0x3000;
}

decompress-InUse_example :
    Returns (λ _. InUse (zero_pool (live quiet)) []) (run_harness library 64 (live quiet) [])
decompress-InUse_example = decompress-InUse library quiet 64 [] [] refl

decompress-backed_example :
    Ends (λ h. backed library quiet h ≡ true) (run_harness library 64 quiet [])
decompress-backed_example = decompress-backed library quiet 64 [] [] (λ h. omega arith) refl refl
