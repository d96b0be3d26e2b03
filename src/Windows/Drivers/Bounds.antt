-- ===== src/Windows/Drivers/Bounds.antt =====
-- The table of the drivers stays in its buffer.
use kafl_targets.Base.{
  ℕ, ⊤, ◌+◌, ◌*◌, ◌≤◌, ◌<◌, Bool, Bool-cases, inl, inr, List, [], ◌∷◌, length, arith, if◌then◌else◌,
}
use kafl_targets.Machine.{Env, History, Safe, Safe-bind, NoBadAccess, NoBadAccess-Safe, ◌>>=◌}
use kafl_targets.Printed.{sprintf_at, TextsUpTo, sprintf_at-Safe}
use kafl_targets.Windows.Drivers.{
  Module, info_size, no_match, submit_first, print_row, print_head, submit_module, set_ip_range,
}

-- Nothing is asked of the result.
abbrev Any : ⊤ → History → Type 0
Any _ _ = Unit

module _ (most : ℕ) (env : Env) (short : TextsUpTo most env) where
  submit_first-Safe :
      (modules : List Module) (pos : ℕ) (h : History)
      → pos + length modules * most < info_size
      → Safe Any (submit_first modules pos env h)
  unfolding submit_first
  submit_first-Safe [] pos h room = unfold no_match in ground arith
  submit_first-Safe (m ∷ more) pos h room =
      Safe-bind (λ q _. q ≤ pos + most) Any (print_row m pos)
        (λ pos'. if m.is_target then submit_module m else submit_first more pos') env h
        (unfold print_row in
          sprintf_at-Safe most (pos + most) info_size _ _ pos env h short (omega arith)
            (grind arith))
        (λ q h' q-le. elim (Bool-cases m.is_target) [
          | inl found ↦ rw found (unfold submit_module in ground arith)
          | inr other ↦ rw other (submit_first-Safe more q h' (grind arith))
        ])

  print_head-Safe :
      (modules : List Module) (h : History)
      → most + most < info_size
      → Safe (λ q _. q ≤ most + most) (print_head modules env h)
  unfolding print_head
  print_head-Safe modules h room =
      Safe-bind (λ q _. q ≤ most) (λ q _. q ≤ most + most) (sprintf_at info_size _ _ 0)
        (sprintf_at info_size _ _) env h
        (sprintf_at-Safe most most info_size _ _ 0 env h short (omega arith) (omega arith))
        (λ q h' q-le.
          sprintf_at-Safe most (most + most) info_size _ _ q env h' short (omega arith) room)

  print_table-Safe :
      (modules : List Module) (h : History)
      → (length modules + 2) * most < info_size
      → Safe Any ((print_head modules >>= submit_first modules) env h)
  print_table-Safe modules h room =
      Safe-bind (λ q _. q ≤ most + most) Any (print_head modules) (submit_first modules) env h
        (print_head-Safe modules h (grind arith))
        (λ q h' q-le. submit_first-Safe modules q h' (grind arith))

  set_ip_range-Safe :
      (fits : Bool) (modules : List Module) (h : History)
      → (length modules + 2) * most < info_size
      → Safe Any (set_ip_range fits modules env h)
  unfolding set_ip_range
  set_ip_range-Safe fits modules h room = unfold no_match in grind (arith, print_table-Safe modules)

-- If no text that is printed is longer than `most`, and two texts of this length and one for each
-- driver leave room in the buffer, then wherever the agent is cut off `set_ip_range` prints nothing
-- behind the buffer's end.
pub set_ip_range-NoBadAccess :
    (most : ℕ) (env : Env) (fits : Bool) (modules : List Module) (h : History)
    → TextsUpTo most env
    → (length modules + 2) * most < info_size
    → NoBadAccess (set_ip_range fits modules env h)
set_ip_range-NoBadAccess most env fits modules h short room =
    NoBadAccess-Safe Any _ (set_ip_range-Safe most env short fits modules h room)
