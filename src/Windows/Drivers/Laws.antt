-- ===== src/Windows/Drivers/Laws.antt =====
-- What the agent submits of the loaded drivers: the order of its calls, the addresses of the bug check
-- functions, and the table of the drivers in its buffer.
use kafl_targets.Base.{
  ℕ, ◌+◌, ◌≡◌, Bool, Bool-cases, inl, inr, String, some, List, [], ◌∷◌, map, arith, if◌then◌else◌,
}
use kafl_targets.Machine.{Env, History, call, num, After, After-bind, ◌>>=◌}
use kafl_targets.Cycle.{AtBare, AtIdle, phase, idle, bare, InOrder}
use kafl_targets.Printed.{sprintf_at, sprintf_at-phase}
use kafl_targets.Windows.Drivers.{
  Module, info_size, resolve_loop, resolve_ke_bug_check, submit_handlers, init_panic_handlers,
  no_match, submit_first, print_row, print_head, submit_module, set_ip_range,
}

resolve_loop-phase :
    (kfunc : String) (drivers : List ℕ) (i : ℕ) (env : Env) (h : History)
    → phase h ≡ some bare
    → After (λ _ h'. phase h' ≡ some bare) InOrder (resolve_loop kfunc drivers i env h)
unfolding resolve_loop
resolve_loop-phase kfunc [] i env h at_start = ground arith
resolve_loop-phase kfunc (driver ∷ more) i env h at_start = ground (
  arith,
  resolve_loop-phase kfunc more (i + 1) env (call "GetDeviceDriverFileName" (num driver ∷ []) ∷ h),
)

resolve_ke_bug_check-phase :
    (fits : Bool) (drivers : List ℕ) (kfunc : String) (env : Env) (h : History)
    → phase h ≡ some bare
    → After (λ _. AtBare) InOrder (resolve_ke_bug_check fits drivers kfunc env h)
unfolding resolve_ke_bug_check
resolve_ke_bug_check-phase fits drivers kfunc env h at_start =
    ground (arith, resolve_loop-phase kfunc drivers 0 env (call "EnumDeviceDrivers" [] ∷ h))

print_row-phase :
    (m : Module) (pos : ℕ) (env : Env) (h : History)
    → phase h ≡ some idle
    → After (λ _. AtIdle) InOrder (print_row m pos env h)
unfolding print_row
print_row-phase m pos env h at_start = sprintf_at-phase info_size _ _ pos idle env h at_start

submit_module-phase :
    (m : Module) (env : Env) (h : History)
    → phase h ≡ some idle
    → After (λ _. AtIdle) InOrder (submit_module m env h)
unfolding submit_module
submit_module-phase m env h at_start = ground arith

submit_first-phase :
    (modules : List Module) (pos : ℕ) (env : Env) (h : History)
    → phase h ≡ some idle
    → After (λ _. AtIdle) InOrder (submit_first modules pos env h)
unfolding submit_first
submit_first-phase [] pos env h at_start = unfold no_match in ground arith
submit_first-phase (m ∷ more) pos env h at_start =
    After-bind (λ _. AtIdle) (λ _. AtIdle) InOrder (print_row m pos)
      (λ pos'. if m.is_target then submit_module m else submit_first more pos') env h
      (print_row-phase m pos env h at_start)
      (λ pos' h' q. elim (Bool-cases m.is_target) [
        | inl found ↦ rw found (submit_module-phase m env h' q)
        | inr other ↦ rw other (submit_first-phase more pos' env h' q)
      ])

print_head-phase :
    (modules : List Module) (env : Env) (h : History)
    → phase h ≡ some idle
    → After (λ _. AtIdle) InOrder (print_head modules env h)
unfolding print_head
print_head-phase modules env h at_start =
    After-bind (λ _. AtIdle) (λ _. AtIdle) InOrder (sprintf_at info_size _ _ 0)
      (sprintf_at info_size _ _) env h (sprintf_at-phase info_size _ _ 0 idle env h at_start)
      (λ pos. sprintf_at-phase info_size _ _ pos idle env)

print_table-phase :
    (modules : List Module) (env : Env) (h : History)
    → phase h ≡ some idle
    → After (λ _. AtIdle) InOrder ((print_head modules >>= submit_first modules) env h)
print_table-phase modules env h at_start =
    After-bind (λ _. AtIdle) (λ _. AtIdle) InOrder (print_head modules) (submit_first modules) env h
      (print_head-phase modules env h at_start) (λ pos. submit_first-phase modules pos env)

pub set_ip_range-phase :
    (fits : Bool) (modules : List Module) (env : Env) (h : History)
    → phase h ≡ some idle
    → After (λ _ h'. phase h' ≡ some idle) InOrder (set_ip_range fits modules env h)
unfolding set_ip_range
set_ip_range-phase fits modules env h at_start =
    unfold no_match in grind (arith, print_table-phase modules)

submit_handlers-phase :
    (a b : ℕ) (env : Env) (h : History)
    → phase h ≡ some bare
    → After (λ _. AtBare) InOrder (submit_handlers a b env h)
unfolding submit_handlers
submit_handlers-phase a b env h at_start = ground arith

pub init_panic_handlers-phase :
    (fits : Bool) (modules : List Module) (env : Env) (h : History)
    → phase h ≡ some bare
    → After (λ _ h'. phase h' ≡ some bare) InOrder (init_panic_handlers fits modules env h)
unfolding init_panic_handlers
init_panic_handlers-phase fits modules env h at_start =
    let drivers = map (λ (m : Module). m.base) modules in
    After-bind (λ _. AtBare) (λ _. AtBare) InOrder (resolve_ke_bug_check fits drivers "KeBugCheck")
      (λ a. resolve_ke_bug_check fits drivers "KeBugCheckEx" >>= submit_handlers a) env h
      (resolve_ke_bug_check-phase fits drivers "KeBugCheck" env h at_start)
      (λ a h1 q1.
        After-bind (λ _. AtBare) (λ _. AtBare) InOrder
          (resolve_ke_bug_check fits drivers "KeBugCheckEx") (submit_handlers a) env h1
          (resolve_ke_bug_check-phase fits drivers "KeBugCheckEx" env h1 q1)
          (λ b h2 q2. submit_handlers-phase a b env h2 q2))
