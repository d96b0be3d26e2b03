-- ===== src/MacOs/Driver/Load.antt =====
-- What the macOS driver registers, and gives back.
use package.text.Mathlib.Text.{◌==◌ as str_eq}
use kafl_targets.Base.{ℕ, suc, ◌-◌, [], ◌∷◌, ◌==◌, if◌then◌else◌}
use kafl_targets.Base.Int.{is_negative}
use kafl_targets.Machine.{Env, History, M, call, when, pure, ◌>>=◌, ◌>>◌}
use kafl_targets.MacOs.Driver.{Device, vuln_start, vuln_stop}

module _ (env : Env) where
  -- The device switches that are registered.
  abbrev pub switches : History → ℕ
  switches [] = 0
  switches (call name args ∷ h) =
      let rest = switches h in
      if str_eq name "cdevsw_add"
      then (if is_negative (env.result h (call name args)) then rest else suc rest)
      else if str_eq name "cdevsw_remove"
      then rest - 1
      else rest
  switches (_ ∷ h) = switches h

  -- The device nodes that exist.
  abbrev pub nodes : History → ℕ
  nodes [] = 0
  nodes (call name args ∷ h) =
      let rest = nodes h in
      if str_eq name "devfs_make_node"
      then (if env.rax h (call name args) == 0 then rest else suc rest)
      else if str_eq name "devfs_remove"
      then rest - 1
      else rest
  nodes (_ ∷ h) = nodes h

-- The driver is loaded, and unloaded if it has started.
abbrev pub load_unload : M Device
load_unload = vuln_start >>= λ d. when d.started (vuln_stop d) >> pure d
