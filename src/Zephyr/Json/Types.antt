-- ===== src/Zephyr/Json/Types.antt =====
-- What the parser may write under the descriptions: values of the fields' types, inside of the structure.
use package.text.Mathlib.Text.{◌==◌ as str_eq}
use kafl_targets.Base.{
  ℕ, zero, suc, ◌+◌, ◌*◌, ◌≤◌, ◌<◌, ◌≡◌, refl, sym, String, Option, none, some, List, [], ◌∷◌, ◌++◌,
  ◌==◌, ◌&&◌, leb, get_elem?, arith, if◌then◌else◌,
}
use mathlib.Core.Path.{fun_ext, subst}
use native.Mathlib.Nat.{mul-le-mul_left}
use kafl_targets.Nyx.Layout.{Field, round_up}
use kafl_targets.Zephyr.Json.{
  Token, json_tok_number, json_tok_true, json_tok_string, Descr, prim, array, object, inner,
  test_struct, nested_descr, description,
}

-- The widths that the parser's documentation gives to the values of a token: an `int32_t`, a `bool`, a
-- pointer.
abbrev pub documented : Token → ℕ
documented json_tok_number = 4
documented json_tok_true = 1
documented json_tok_string = 4

-- Values that the parser may write: into this field, of this width, as many at most.
pub record Target : Type 0 where
  pub name : String
  pub width : ℕ
  pub most : ℕ

-- `value_width` is the width of the value that the parser writes for a token.
module _ (value_width : Token → ℕ) where
  -- Into a structure of which all fields belong to an object.
  inner_targets : String → List Descr → List Target
  inner_targets outer [] = []
  inner_targets outer (prim json f t ∷ more) =
      record { name = inner outer f; width = value_width t; most = 1 } ∷ inner_targets outer more
  inner_targets outer (_ ∷ more) = inner_targets outer more

  -- The number of an array's elements is a `size_t`.
  pub targets : List Descr → List Target
  unfolding inner_targets nested_descr
  targets [] = []
  targets (prim json f t ∷ more) =
      record { name = f; width = value_width t; most = 1 } ∷ targets more
  targets (array json f max len t ∷ more) =
      record { name = f; width = value_width t; most = max }
      ∷ record { name = len; width = 4; most = 1 }
      ∷ targets more
  targets (object json f ∷ more) = inner_targets f nested_descr ++ targets more

-- A run of values in memory.
pub record Slot : Type 0 where
  pub begin : ℕ
  pub size : ℕ
  pub number : ℕ

-- The slot of a target, if the structure, which begins at `at`, has the field, with the type of the
-- values and room for all of them.
slot : ℕ → List Field → Target → Option Slot
slot at [] t = none
slot at (f ∷ more) t =
    let begin = round_up at f.width in
    let rest = slot (begin + f.width * f.number) more t in
    if str_eq f.name t.name
    then (if f.width == t.width && leb t.most f.number
        then some (record { begin = begin; size = t.width; number = t.most })
        else none)
    else rest

pub slots : List Target → Option (List Slot)
unfolding slot
slots [] = some []
slots (t ∷ more) = elim (slot 0 test_struct t) [
  | none ↦ none
  | some s ↦ elim (slots more) [ none ↦ none | some rest ↦ some (s ∷ rest) ]
]

-- Each slot lies behind the one before it, and in a structure of `total` bytes.
abbrev Follows : ℕ → ℕ → List Slot → Type 0
Follows total from [] = from ≤ total
Follows total from (s ∷ more) = (from ≤ s.begin) × Follows total (s.begin + s.size * s.number) more

abbrev at : ℕ → ℕ → ℕ → Slot
at b w n = record { begin = b; size = w; number = n }

-- The slots under `description`: the fields of `struct test_struct`, which has 152 bytes.
abbrev pub described : List Slot
described =
    at 0 4 1
    ∷ at 4 4 1
    ∷ at 8 1 1
    ∷ at 12 4 1
    ∷ at 16 1 1
    ∷ at 20 4 1
    ∷ at 24 4 16
    ∷ at 88 4 1
    ∷ at 92 1 1
    ∷ at 93 1 1
    ∷ at 96 4 10
    ∷ at 136 4 1
    ∷ at 140 4 1
    ∷ at 144 1 1
    ∷ at 148 4 1
    ∷ []

described_lem :
    (value_width : Token → ℕ)
    → ((t : Token) → value_width t ≡ documented t)
    → slots (targets value_width description) ≡ some described
unfolding slots targets description
described_lem value_width widths =
    subst (λ w. slots (targets w description) ≡ some described) (sym (fun_ext widths)) refl

described-Follows : Follows 152 0 described
described-Follows = ground arith

value_fits :
    (s : Slot) (k : ℕ) → k < s.number → s.begin + s.size * suc k ≤ s.begin + s.size * s.number
value_fits s k lt = let fits = mul-le-mul_left s.size lt in omega arith

Follows-end : (total from : ℕ) (ss : List Slot) → Follows total from ss → from ≤ total
Follows-end total from [] follows = follows
Follows-end total from (s ∷ more) follows =
    let ih = Follows-end total (s.begin + s.size * s.number) more follows.1 in
    omega (arith, follows.0)

slot_fits :
    (total from : ℕ) (ss : List Slot) (i : ℕ) (s : Slot)
    → Follows total from ss
    → get_elem? ss i ≡ some s
    → (from ≤ s.begin) × (s.begin + s.size * s.number ≤ total)
slot_fits total from [] i s follows e = ground arith
slot_fits total from (t ∷ more) zero s follows e =
    let ih = Follows-end total (t.begin + t.size * t.number) more follows.1 in ground arith
slot_fits total from (t ∷ more) (suc i) s follows e =
    let ih = slot_fits total (t.begin + t.size * t.number) more i s follows.1 e in
    (omega (arith, ih.0, follows.0), ih.1)

slots_apart :
    (total from : ℕ) (ss : List Slot) (i j : ℕ) (s t : Slot)
    → Follows total from ss
    → get_elem? ss i ≡ some s
    → get_elem? ss j ≡ some t
    → i < j
    → s.begin + s.size * s.number ≤ t.begin
slots_apart total from [] i j s t follows e e' lt = ground arith
slots_apart total from (u ∷ more) zero (suc j) s t follows e e' lt =
    let later = slot_fits total (u.begin + u.size * u.number) more j t follows.1 e' in ground arith
slots_apart total from (u ∷ more) (suc i) (suc j) s t follows e e' lt =
    slots_apart total (u.begin + u.size * u.number) more i j s t follows.1 e e' (omega arith)
slots_apart total from (u ∷ more) i zero s t follows e e' lt = absurd (omega arith)

-- If Zephyr's parser writes values of the documented widths, every description is of a field of
-- `struct test_struct` that has the width of its values and room for all of them. A value that belongs
-- to an earlier description lies before one that belongs to a later one, and both lie in the
-- structure: no value overwrites another's, or what lies behind the structure.
pub description-Typed :
    (value_width : Token → ℕ) (i j k l : ℕ) (s t : Slot)
    → ((t : Token) → value_width t ≡ documented t)
    → get_elem? described i ≡ some s
    → get_elem? described j ≡ some t
    → i < j
    → k < s.number
    → l < t.number
    → (slots (targets value_width description) ≡ some described)
      × (s.begin + s.size * suc k ≤ t.begin + t.size * l)
      × (t.begin + t.size * suc l ≤ 152)
description-Typed value_width i j k l s t widths e e' lt lt_k lt_l =
    let apart = slots_apart 152 0 described i j s t described-Follows e e' lt in
    let fits = slot_fits 152 0 described j t described-Follows e' in
    (
      described_lem value_width widths,
      (let first = value_fits s k lt_k in omega arith),
      (let second = value_fits t l lt_l in omega arith),
    )
