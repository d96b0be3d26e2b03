-- ===== src/Zephyr/Json.antt =====
-- The target that parses JSON (zephyr_x86_32/src/target_json.c): the structure that is parsed into, its
-- description, and the call of the parser, which is Zephyr's.
pub mod Types
use Prim.Native.String
use kafl_targets.Base.{ℕ, String, false, List, [], ◌∷◌, ◌++◌, length, map}
use kafl_targets.Base.Int.{ℤ}
use kafl_targets.Machine.{M, libcall, num}
use kafl_targets.Nyx.Layout.{Field, field}

-- The kinds of token that the descriptions ask for.
pub data Token : Type 0 where
  json_tok_number json_tok_true json_tok_string : Token

-- What the macros `JSON_OBJ_DESCR_*` put into a table: a name in the JSON text, the field, and the
-- kind of token; for an array also how many elements there may be, and the field of their number.
-- An object is described by `nested_descr`.
pub data Descr : Type 0 where
  prim : String → String → Token → Descr
  array : String → String → ℕ → String → Token → Descr
  object : String → String → Descr

-- A field of a structure inside of a structure.
abbrev pub inner : String → String → String
inner outer name = String.◌++◌ outer (String.◌++◌ "." name)

-- `struct test_nested`: an `int` and a pointer have four bytes.
abbrev pub test_nested : List Field
test_nested = field "nested_int" 4 1 ∷ field "nested_bool" 1 1 ∷ field "nested_string" 4 1 ∷ []

-- `struct test_nested` as the field `outer`; its first field has the alignment of the structure, and
-- its size is a multiple of it.
abbrev nested : String → List Field
nested outer = map (λ (f : Field). field (inner outer f.name) f.width f.number) test_nested

-- `struct test_struct`
abbrev pub test_struct : List Field
test_struct =
    (field "some_string" 4 1 ∷ field "some_int" 4 1 ∷ field "some_bool" 1 1 ∷ [])
    ++ nested "some_nested_struct"
    ++ (field "some_array" 4 16
        ∷ field "some_array_len" 4 1
        ∷ field "another_bxxl" 1 1
        ∷ field "if_" 1 1
        ∷ field "another_array" 4 10
        ∷ field "another_array_len" 4 1
        ∷ [])
    ++ nested "xnother_nexx"

-- `nested_descr`
pub nested_descr : List Descr
nested_descr =
    prim "nested_int" "nested_int" json_tok_number
    ∷ prim "nested_bool" "nested_bool" json_tok_true
    ∷ prim "nested_string" "nested_string" json_tok_string
    ∷ []

-- `description`
unfoldable pub description : List Descr
description =
    prim "some_string" "some_string" json_tok_string
    ∷ prim "some_int" "some_int" json_tok_number
    ∷ prim "some_bool" "some_bool" json_tok_true
    ∷ object "some_nested_struct" "some_nested_struct"
    ∷ array "some_array" "some_array" 16 "some_array_len" json_tok_number
    ∷ prim "another_b!@l" "another_bxxl" json_tok_true
    ∷ prim "if" "if_" json_tok_true
    ∷ array "another-array" "another_array" 10 "another_array_len" json_tok_number
    ∷ object "4nother_ne$+" "xnother_nexx"
    ∷ []

-- `target_entry`
unfoldable pub target_entry : ℕ → M ℤ
unfolding libcall description
target_entry len = libcall "json_obj_parse" (num len ∷ num (length description) ∷ [])
