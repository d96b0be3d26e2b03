-- ===== src/Windows/Driver.antt =====
-- The vulnerable driver (kafl_vulnerable_driver/driver.c). Its debug output is left out.
pub mod Laws
use kafl_targets.Base.{ℕ, zero, suc, ⊤, ◌+◌, Bool, true, ltb, List, [], ◌∷◌, ◌==◌, if◌then◌else◌}
use kafl_targets.Base.Int.{ℤ, is_negative}
use kafl_targets.Machine.{M, pure, stop, when, ◌>>=◌, ◌>>◌, perform, libcall, call, str, bad_access}
use kafl_targets.Buffer.{probe, bytes_of}

-- The status codes that the driver returns.
pub data Status : Type 0 where
  success not_supported invalid_parameter : Status

pub data MajorFunction : Type 0 where
  create close device_control other : MajorFunction

-- A request: its function, control code, and the user's buffer with the length given for it.
pub record Irp : Type 0 where
  pub major_function : MajorFunction
  pub io_control_code : ℕ
  pub type3_input_buffer : List ℕ
  pub input_buffer_length : ℕ

-- CTL_CODE(FILE_DEVICE_UNKNOWN, 0x800, METHOD_NEITHER, FILE_ANY_ACCESS)
abbrev pub ioctl_kafl_input : ℕ
ioctl_kafl_input = 0x222003

-- `crashMe`: the crashes are a call of and a read from address 0.
pub crash_me : Irp → M Status
unfolding perform
crash_me irp = if ltb irp.input_buffer_length 0xe then pure success else (do
  probe (bytes_of irp.type3_input_buffer) "PwnTown" (perform (call "null" []))
  probe (bytes_of irp.type3_input_buffer) "w00t" (perform (call "*null" []))
  pure success)

-- The switch of `handleIrp`.
pub dispatch : Irp → M Status
unfolding crash_me
dispatch irp = elim irp.major_function [
  | device_control ↦
      if irp.io_control_code == ioctl_kafl_input then crash_me irp else pure invalid_parameter
  | create ↦ pure success
  | close ↦ pure success
  | other ↦ pure not_supported
]

-- `handleIrp`
pub handle_irp : Irp → M Status
unfolding dispatch perform
handle_irp irp = do status ← dispatch irp; perform (call "IoCompleteRequest" []); pure status

-- IRP_MJ_MAXIMUM_FUNCTION
abbrev irp_mj_maximum_function : ℕ
irp_mj_maximum_function = 27

-- `MajorFunction[i] = handleIrp` for the next `n` indices from `i`: entry `true` is `handleIrp`. A
-- write behind the table is a fault.
pub install : ℕ → List Bool → M (List Bool)
install zero table = pure table
install (suc n) [] = stop bad_access
install (suc n) (old ∷ table) = do rest ← install n table; pure (true ∷ rest)

-- `DriverEntry`, on the driver object's table; the result is the status and the new table.
pub driver_entry : List Bool → M (ℤ × List Bool)
unfolding libcall perform
driver_entry major_function = do
  ntstatus ← libcall "IoCreateDevice" (str "\\Device\\testKafl" ∷ [])
  if is_negative ntstatus
      then (do perform (call "IoDeleteDevice" []); pure (ntstatus, major_function))
      else (do
        table ← install (irp_mj_maximum_function + 1) major_function
        ntstatus ← libcall "IoCreateSymbolicLink" (str "\\DosDevices\\testKafl" ∷ [])
        pure (ntstatus, table))

-- `DriverUnload`
driver_unload : M ⊤
unfolding perform
driver_unload = do
  perform (call "IoDeleteSymbolicLink" (str "\\DosDevices\\testKafl" ∷ []))
  perform (call "IoDeleteDevice" [])
