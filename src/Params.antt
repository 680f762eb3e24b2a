-- ===== src/Params.antt =====
-- Lists in a text: `split_csv_params`, `infer_param_name` and `parse_return_type_from_prototype` of
-- src/lib/src/entities_detail.cpp, and `split_pattern_list` and `import_loader_args` of
-- src/cli/request_params.hpp. The `trim_copy` of either file is the same function.
pub mod Split
use ghidrasql.Prelude.{
  ℕ, zero, suc, ◌-◌, Bool, true, false, not, ◌&&◌, ◌||◌, Option, none, some, List, [], ◌∷◌, ◌++◌,
  reverse, ◌==◌, if◌then◌else◌, Bytes, codes, space, is_alnum, elem, find_char, is_empty, length,
  take, drop, to_dec, ltb,
}
use ghidrasql.Model.{FunctionRow}
use ghidrasql.Memory.Items.{trim_front, trim_copy}

-- `if (!item.empty()) out.push_back(item);`, for the trimmed text.
abbrev pub push_item : Bytes → List Bytes → List Bytes
push_item cur out = let item = trim_copy cur in if is_empty item then out else out ++ item ∷ []

-- The loop of `split_csv_params`: `cur`, `depth` and `out`.
pub csv_loop : Bytes → Bytes → ℕ → List Bytes → List Bytes
csv_loop [] cur depth out = push_item cur out
csv_loop (ch ∷ params) cur depth out =
    let comma = ch == b',' && depth == 0 in
    csv_loop params (if comma then [] else cur ++ ch ∷ [])
      (if ch == b'(' then suc depth else if ch == b')' then depth - 1 else depth)
      (if comma then push_item cur out else out)

unfoldable pub split_csv_params : Bytes → List Bytes
unfolding csv_loop
split_csv_params params = csv_loop params [] 0 []

-- The loop of `split_pattern_list`: `current` and `out`.
pub pattern_loop : Bytes → Bytes → List Bytes → List Bytes
pattern_loop [] current out = push_item current out
pattern_loop (c ∷ value) current out =
    pattern_loop value (if c == b',' then [] else current ++ c ∷ [])
      (if c == b',' then push_item current out else out)

unfoldable pub split_pattern_list : Bytes → List Bytes
unfolding pattern_loop
split_pattern_list value = pattern_loop value [] []

-- The loader arguments of an import, as names and values.
pub import_loader_args : Bool → List (Bytes × Bytes)
import_loader_args load_libraries =
    if not load_libraries
    then []
    else (codes "-loader-ordinalLookup", codes "true")
      ∷ (codes "-loader-linkExistingProjectLibraries", codes "true")
      ∷ (codes "-loader-loadLibraries", codes "true")
      ∷ []

-- The identifier that a reversed text begins with, in its own order.
ident_tail : Bytes → Bytes → Bytes
ident_tail [] out = out
ident_tail (ch ∷ s) out =
    let more = ident_tail s (ch ∷ out) in if is_alnum ch || ch == b'_' then more else out

abbrev pub type_words : List Bytes
type_words =
    codes "void"
    ∷ codes "char"
    ∷ codes "short"
    ∷ codes "int"
    ∷ codes "long"
    ∷ codes "float"
    ∷ codes "double"
    ∷ codes "bool"
    ∷ codes "signed"
    ∷ codes "unsigned"
    ∷ codes "const"
    ∷ codes "volatile"
    ∷ codes "struct"
    ∷ codes "class"
    ∷ codes "enum"
    ∷ []

pub infer_param_name : Bytes → ℕ → Bytes
unfolding ident_tail
infer_param_name param_decl idx =
    let candidate = ident_tail (trim_front (reverse param_decl)) [] in
    if is_empty candidate || elem candidate type_words then codes "arg" ++ to_dec idx else candidate

-- `find_last_of(" \t")`, as the text in front of it.
before_last_blank : Bytes → Option Bytes
before_last_blank [] = none
before_last_blank (c ∷ s) = elim (before_last_blank s) [
  | none ↦ if c == space || c == 9 then some [] else none
  | some front ↦ some (c ∷ front)
]

pub parse_return_type_from_prototype : Bytes → Bytes
unfolding before_last_blank
parse_return_type_from_prototype prototype =
    let proto = trim_copy prototype in
    elim (find_char b'(' proto) [
      | none ↦ codes "void"
      | some l ↦ elim (before_last_blank (trim_copy (take l proto))) [
        | none ↦ codes "void"
        | some front ↦ let out = trim_copy front in if is_empty out then codes "void" else out
      ]
    ]

pub function_return_type : FunctionRow → Bytes
unfolding parse_return_type_from_prototype
function_return_type row =
    if is_empty row.signature then codes "void" else parse_return_type_from_prototype row.signature
