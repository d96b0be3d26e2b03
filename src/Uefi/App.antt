-- ===== src/Uefi/App.antt =====
-- The shell application that starts the DXE harness (kAFLDxeHarnessPkg/App/kAFLApp.c), and the way
-- from loading the driver to fuzzing through its protocol.
pub mod Laws
use kafl_targets.Base.{ℕ, ⊤, Bool, [], ◌∷◌, if◌then◌else◌}
use kafl_targets.Machine.{
  M, stop, assertion, ◌>>=◌, ◌>>◌, perform, libcall_word, call, num, str, repeat,
}
use kafl_targets.Harness.{Harness}
use kafl_targets.Uefi.Dxe.{initialize, Protocol, protocol}

module _ (efi_error : ℕ → Bool) where
  -- `UefiMain`, which calls the functions of the protocol that it finds.
  pub app_main : Protocol → ℕ → M ⊤
  unfolding perform libcall_word
  app_main dxe n = do
    perform (call "Print" (str "System Table address: 0x%08x\n" ∷ []))
    status ← libcall_word "LocateProtocol" []
    if efi_error status then stop assertion else dxe.noop >> dxe.fuzz n

  -- The firmware loads the driver, and the application is started.
  pub load_and_fuzz : Harness → ℕ → M ⊤
  unfolding app_main
  load_and_fuzz harness n = do
    payload_buffer ← initialize efi_error
    app_main (protocol harness payload_buffer) n
