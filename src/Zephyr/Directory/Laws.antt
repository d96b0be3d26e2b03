-- ===== src/Zephyr/Directory/Laws.antt =====
-- What the file system target opens and closes.
use package.text.Mathlib.Text.{◌==◌ as str_eq}
use kafl_targets.Base.{
  ℕ, zero, suc, ◌≡◌, ◌-◌, ◌+◌, ◌≤◌, ◌<◌, true, false, ◌⊎◌, String, [], ◌∷◌, arith, if◌then◌else◌,
}
use kafl_targets.Base.Int.{is_zero}
use kafl_targets.Machine.{Env, History, call, After, OnFuel, libcall, ◌>>◌, skip}
use kafl_targets.Cycle.{AtRunning, InOrder}
use kafl_targets.Zephyr.Directory.{list_loop, lsdir, target_entry}

-- The directories that are open and the volumes that are mounted.
abbrev pub open_dirs : Env → History → ℕ
open_dirs env [] = 0
open_dirs env (call name args ∷ h) =
    let rest = open_dirs env h in
    if str_eq name "fs_opendir"
    then (if is_zero (env.result h (call name args)) then suc rest else rest)
    else if str_eq name "fs_closedir"
    then rest - 1
    else rest
open_dirs env (_ ∷ h) = open_dirs env h

abbrev pub mounts : Env → History → ℕ
mounts env [] = 0
mounts env (call name args ∷ h) =
    let rest = mounts env h in
    if str_eq name "fs_mount"
    then (if is_zero (env.result h (call name args)) then suc rest else rest)
    else if str_eq name "fs_unmount"
    then rest - 1
    else rest
mounts env (_ ∷ h) = mounts env h

-- The entries that have been asked for.
abbrev pub reads : History → ℕ
reads [] = 0
reads (call name args ∷ h) = (if str_eq name "fs_readdir" then 1 else 0) + reads h
reads (_ ∷ h) = reads h

-- A directory has at most `bound` entries: behind them reading fails, or brings an empty name, which
-- is how `fs_readdir` shows the end.
abbrev DirectoryEnds : Env → ℕ → Type 0
DirectoryEnds env bound =
    (h : History)
    → bound ≤ reads h
    → (is_zero (env.result h (call "fs_readdir" [])) ≡ false)
      ⊎ (is_zero (env.result (call "fs_readdir" [] ∷ h) (call "entry.name[0]" [])) ≡ true)

abbrev Holds : Env → ℕ → ℕ → History → Type 0
Holds env d m h = (open_dirs env h ≡ d) × (mounts env h ≡ m)

module _ (env : Env) where
  list_loop-Holds :
      (d m fuel : ℕ) (h : History)
      → Holds env d m h
      → After (λ _. Holds env d m) (λ _. Unit {0}) (list_loop fuel env h)
  unfolding list_loop libcall
  list_loop-Holds d m zero h holds = tt
  list_loop-Holds d m (suc fuel) h holds =
      let read = call "fs_readdir" [] in
      ground (arith, list_loop-Holds d m fuel (call "entry.name[0]" [] ∷ read ∷ h))

  lsdir-Holds :
      (d m fuel : ℕ) (path : String) (h : History)
      → Holds env d m h
      → After (λ _. Holds env d m) (λ _. Unit {0}) (lsdir fuel path env h)
  unfolding lsdir libcall
  lsdir-Holds d m fuel path h holds = grind (arith, list_loop-Holds (suc d) m fuel)

  list_loop_ends :
      (bound : ℕ)
      → DirectoryEnds env bound
      → (fuel : ℕ) (h : History) → reads h ≤ bound
      → bound < reads h + fuel
      → OnFuel (λ _. ⊥) (list_loop fuel env h)
  unfolding list_loop libcall
  list_loop_ends bound ends zero h le lt = omega arith
  list_loop_ends bound ends (suc fuel) h le lt =
      let read = call "fs_readdir" [] in
      ground (arith, ends h, list_loop_ends bound ends fuel (call "entry.name[0]" [] ∷ read ∷ h))

  lsdir_ends :
      (bound fuel : ℕ) (path : String) (h : History)
      → DirectoryEnds env bound
      → bound < fuel
      → reads h ≡ 0
      → OnFuel (λ _. ⊥) (lsdir fuel path env h)
  unfolding lsdir libcall
  lsdir_ends bound fuel path h ends lt start = grind (arith, list_loop_ends bound ends fuel)

  target_entry_ends :
      (bound fuel : ℕ) (h : History)
      → DirectoryEnds env bound
      → bound < fuel
      → reads h ≡ 0
      → OnFuel (λ _. ⊥) (target_entry fuel env h)
  unfolding target_entry libcall
  target_entry_ends bound fuel h ends lt start = grind (arith, lsdir_ends bound fuel "/SD:")

  target_entry-Holds :
      (fuel : ℕ) (h : History)
      → After
          (λ _. Holds env (open_dirs env h) (mounts env h))
          (λ _. Unit {0})
          (target_entry fuel env h)
  unfolding target_entry libcall
  target_entry-Holds fuel h =
      grind (arith, lsdir-Holds (open_dirs env h) (suc (mounts env h)) fuel "/SD:")

  -- If after at most `bound` entries reading a directory fails or brings an empty name, the file system target needs no
  -- more than `bound + 1` rounds of its loop, and where its calls come back it has closed the
  -- directory and unmounted the volume that it opened, whichever of its calls failed.
  pub target_entry-balanced :
      (bound fuel : ℕ) (h : History)
      → DirectoryEnds env bound
      → bound < fuel
      → reads h ≡ 0
      → OnFuel (λ _. ⊥) (target_entry fuel env h)
        × After
            (λ _ h'. (open_dirs env h' ≡ open_dirs env h) × (mounts env h' ≡ mounts env h))
            (λ _. Unit {0})
            (target_entry fuel env h)
  target_entry-balanced bound fuel h ends lt start =
      (target_entry_ends bound fuel h ends lt start, target_entry-Holds fuel h)

list_loop-phase :
    (fuel : ℕ) (env : Env) (h : History)
    → AtRunning h
    → After (λ _. AtRunning) InOrder (list_loop fuel env h)
unfolding list_loop libcall
list_loop-phase zero env h running = ground arith
list_loop-phase (suc fuel) env h running =
    let read = call "fs_readdir" [] in
    ground (arith, list_loop-phase fuel env (call "entry.name[0]" [] ∷ read ∷ h))

lsdir-phase :
    (fuel : ℕ) (path : String) (env : Env) (h : History)
    → AtRunning h
    → After (λ _. AtRunning) InOrder (lsdir fuel path env h)
unfolding lsdir
lsdir-phase fuel path env h running = grind (arith, list_loop-phase fuel env)

-- The file system target leaves the fuzzing cycle to the agent.
pub target_entry-phase :
    (fuel : ℕ) (env : Env) (h : History)
    → AtRunning h
    → After (λ _. AtRunning) InOrder ((target_entry fuel >> skip) env h)
unfolding target_entry
target_entry-phase fuel env h running = grind (arith, lsdir-phase fuel "/SD:" env)
