-- ===== src/Uefi/Pool.antt =====
-- The pool of blocks that a target of UEFI allocates and frees, as a monitor of the history.
use package.text.Mathlib.Text.{◌==◌ as str_eq}
use kafl_targets.Base.{ℕ, ⊤, List, [], ◌∷◌, String, Option, none, some, ◌==◌, ◌≡◌, if◌then◌else◌}
use kafl_targets.Machine.{M, skip, History, Event, Val, call, vmcall, target, num, perform}

-- `if (p != NULL) FreePool(p);`
unfoldable pub free_pool : ℕ → M ⊤
unfolding perform
free_pool p = if p == 0 then skip else perform (call "FreePool" (num p ∷ []))

-- A block of the pool: its address and its size.
pub record Block : Type 0 where
  pub base : ℕ
  pub bytes : ℕ

-- The pool without the block at an address; `none` if there is none.
abbrev pub remove : ℕ → List Block → Option (List Block)
remove p [] = none
remove p (b ∷ bs) =
    let rest = remove p bs in
    if b.base == p then some bs else elim rest [ none ↦ none | some r ↦ some (b ∷ r) ]

-- `allocated` is the block that a call has handed out, none if its address is 0.
abbrev pub after_call : String → List Val → Block → List Block → Option (List Block)
after_call name (num p ∷ []) b bs =
    if str_eq name "FreePool" then remove p bs else if b.base == 0 then some bs else some (b ∷ bs)
after_call name _ b bs = if b.base == 0 then some bs else some (b ∷ bs)

module _ (allocated : History → Event → Block) where
  -- The blocks in use; `none` once a block that is not in use was freed.
  abbrev pub pool : History → Option (List Block)
  pool [] = some []
  pool (call name args ∷ h) = elim (pool h) [
    | none ↦ none
    | some bs ↦ after_call name args (allocated h (call name args)) bs
  ]
  pool (vmcall id a ∷ h) = pool h
  pool (target p ∷ h) = pool h

  -- The blocks `bs` are in use.
  abbrev pub InUse : List Block → History → Type 0
  InUse bs h = pool h ≡ some bs
