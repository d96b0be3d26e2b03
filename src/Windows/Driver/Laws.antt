-- ===== src/Windows/Driver/Laws.antt =====
-- Requests to the Windows driver: their status, its reads, and the table of its handlers.
use kafl_targets.Base.{
  inl, inr, Bool-cases, ℕ, zero, suc, ◌≤◌, ◌≡◌, ◌⊎◌, refl, Bool, true, List, [], ◌∷◌, String,
  length, arith, ltb, ◌==◌, if◌then◌else◌,
}
use kafl_targets.Base.Int.{is_negative}
use kafl_targets.Machine.{
  Env, History, NoBadAccess, After, perform, pure, call, ◌>>=◌, ◌>>◌, done, str,
}
use kafl_targets.Buffer.{codes, probe, begins_with, bytes_of}
use kafl_targets.Buffer.Laws.{bytes_of-inside, probe-NoBadAccess, NoBadAccess-then}
use kafl_targets.Windows.Driver.{
  Irp, Status, success, not_supported, invalid_parameter, MajorFunction, create, close,
  device_control, other, ioctl_kafl_input, crash_me, handle_irp, install, driver_entry,
}

check :
    (buf : List ℕ) (w e : String) (env : Env) (h : History)
    → length (codes w) ≤ length buf
    → NoBadAccess (probe (bytes_of buf) w (perform (call e [])) env h)
unfolding perform
check buf w e env h le =
    probe-NoBadAccess (bytes_of buf) w (perform (call e [])) env h
      (bytes_of-inside buf (codes w) le) (ground arith)

-- Where the user's buffer is as long as the request says, `crashMe` reads only bytes of it.
crash_me-NoBadAccess :
    (irp : Irp) (env : Env) (h : History)
    → irp.input_buffer_length ≤ length irp.type3_input_buffer
    → NoBadAccess (crash_me irp env h)
unfolding crash_me
crash_me-NoBadAccess irp env h holds = elim (Bool-cases (ltb irp.input_buffer_length 0xe)) [
  | inl short ↦ rw short tt
  | inr enough ↦
      let buf = irp.type3_input_buffer in
      let le : 14 ≤ length buf = ground arith in
      let last = probe (bytes_of buf) "w00t" (perform (call "*null" [])) >> pure success in
      rw enough (
        NoBadAccess-then (probe (bytes_of buf) "PwnTown" (perform (call "null" []))) last env h
          (check buf "PwnTown" "null" env h (omega arith))
          λ h1.
            NoBadAccess-then (probe (bytes_of buf) "w00t" (perform (call "*null" [])))
              (pure success) env h1 (check buf "w00t" "*null" env h1 (omega arith)) (λ _. tt))
]

-- The answer that is due to a request.
abbrev expected : Irp → Status
expected irp = elim irp.major_function [
  | device_control ↦ if irp.io_control_code == ioctl_kafl_input then success else invalid_parameter
  | other ↦ not_supported
  | _ ↦ success
]

-- A completed request is answered by its function and control code alone: a control request that is
-- not the driver's own has an invalid parameter, one that is neither a control request nor an
-- opening or closing is not supported, and all others succeed.
handle_irp-expected :
    (irp : Irp) (env : Env) (h : History)
    → After (λ status _. status ≡ expected irp) (λ _. Unit {0}) (handle_irp irp env h)
unfolding handle_irp crash_me probe begins_with
handle_irp-expected irp env h = answered irp.major_function refl
  where
    answered :
        (f : MajorFunction)
        → irp.major_function ≡ f
        → After (λ status _. status ≡ expected irp) (λ _. Unit {0}) (handle_irp irp env h)
    answered create e = ground arith
    answered close e = ground arith
    answered other e = ground arith
    answered device_control e = ground arith

abbrev replicate : ℕ → Bool → List Bool
replicate zero b = []
replicate (suc n) b = b ∷ replicate n b

install_fills :
    (n : ℕ) (table : List Bool) (env : Env) (h : History)
    → length table ≡ n
    → install n table env h ≡ done (replicate n true) h
unfolding install
install_fills zero [] env h e = refl
install_fills zero (x ∷ table) env h e = absurd (omega arith)
install_fills (suc n) [] env h e = absurd (omega arith)
install_fills (suc n) (x ∷ table) env h e = rw (install_fills n table env h (omega arith), ◌>>=◌)

-- On a table of 28 functions the loop of `DriverEntry` writes nothing behind the table, and a
-- driver that comes back either has failed with an error and left the table alone, or handles every
-- function.
driver_entry-installs :
    (table : List Bool) (env : Env) (h : History)
    → length table ≡ 28
    → NoBadAccess (driver_entry table env h)
      × After
          (λ r _. ((is_negative r.0 ≡ true) × (r.1 ≡ table)) ⊎ (r.1 ≡ replicate 28 true))
          (λ _. Unit {0})
          (driver_entry table env h)
unfolding driver_entry
driver_entry-installs table env h full =
    let filled = λ (h' : History). install_fills 28 table env h' full in
    let created = call "IoCreateDevice" (str "\\Device\\testKafl" ∷ []) in
    (ground (arith, filled (created ∷ h)), ground (arith, filled (created ∷ h)))
