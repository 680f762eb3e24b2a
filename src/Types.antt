-- ===== src/Types.antt =====
-- What the code reads off the text of a type: `type_strip_cv`, `type_is_pointer` and `type_family` of
-- src/lib/src/functions.cpp, the `type_is_*_compat` tests, `normalize_type_token`,
-- `estimate_type_size` and `parse_language_id` of src/lib/src/entities_detail.cpp.
pub mod Strip
pub mod Language
use ghidrasql.Prelude.{
  ℕ, zero, suc, ◌+◌, ◌-◌, min, ℤ, pos, Bool, true, false, not, ◌&&◌, ◌||◌, Option, none, some, List,
  [], ◌∷◌, ◌++◌, map, ◌==◌, ◌>>=◌, if◌then◌else◌, Bytes, codes, space, is_space, is_alnum, to_lower,
  eqb, elem, contains, find_char, is_empty, any, count, select, take, drop,
}
use ghidrasql.Text.{pop_space, normalize_text, tokenize, join_tokens}
use ghidrasql.Memory.Items.{trim_copy}

abbrev pub cv_words : List Bytes
cv_words = codes "const" ∷ codes "volatile" ∷ codes "restrict" ∷ codes "mutable" ∷ []

-- A loop that appends a mark, with a space in front where there is text.
pub push_marks : ℕ → ℕ → Bytes → Bytes
push_marks zero mark out = out
push_marks (suc n) mark out =
    push_marks n mark ((if is_empty out then out else out ++ space ∷ []) ++ mark ∷ [])

pub type_strip_cv : Bytes → Bytes
unfolding push_marks
type_strip_cv decl =
    let norm = normalize_text decl in
    let filtered = select (λ t. not (elem t cv_words)) (tokenize norm) in
    let ptr_count = count (λ c. c == b'*') decl in
    let ref_count = count (λ c. c == b'&') decl in
    let out =
      push_marks (min ref_count 4) b'&'
        (push_marks (min ptr_count 4) b'*' (join_tokens filtered)) in
    if is_empty out then norm else out

abbrev pub has_char : ℕ → Bytes → Bool
has_char mark s = any (λ c. c == mark) s

abbrev pub pointer_words : List Bytes
pointer_words = codes "ptr" ∷ codes "pointer" ∷ codes "ref" ∷ codes "reference" ∷ []

pub type_is_pointer : Bytes → Bool
type_is_pointer decl =
    if has_char b'*' decl || has_char b'&' decl
    then true
    else any (λ t. elem t pointer_words) (tokenize (normalize_text decl))

-- Whether one of the words is a token.
abbrev pub names_any : List Bytes → List Bytes → Bool
names_any words tokens = any (λ w. elem w tokens) words

abbrev pub integral_words : List Bytes
integral_words =
    codes "char"
    ∷ codes "short"
    ∷ codes "int"
    ∷ codes "long"
    ∷ codes "size_t"
    ∷ codes "ssize_t"
    ∷ codes "unsigned"
    ∷ codes "signed"
    ∷ codes "uint8_t"
    ∷ codes "uint16_t"
    ∷ codes "uint32_t"
    ∷ codes "uint64_t"
    ∷ codes "int8_t"
    ∷ codes "int16_t"
    ∷ codes "int32_t"
    ∷ codes "int64_t"
    ∷ []

pub type_family : Bytes → Bytes
unfolding type_is_pointer
type_family decl =
    let tokens = tokenize (normalize_text decl) in
    if names_any (codes "struct" ∷ codes "class" ∷ codes "union" ∷ []) tokens
    then codes "aggregate"
    else if names_any (codes "enum" ∷ []) tokens
    then codes "enum"
    else if names_any (codes "typedef" ∷ codes "using" ∷ []) tokens
    then codes "alias"
    else if has_char b'(' decl && has_char b')' decl
    then codes "function"
    else if type_is_pointer decl
    then codes "pointer"
    else if names_any (codes "bool" ∷ []) tokens
    then codes "boolean"
    else if names_any (codes "float" ∷ codes "double" ∷ []) tokens
    then codes "floating"
    else if names_any integral_words tokens
    then codes "integral"
    else if names_any (codes "void" ∷ []) tokens
    then codes "void"
    else codes "unknown"

-- The loop of `normalize_type_token`, with `out`; `back() != ' '` is read off the last byte kept.
token_chars : Bytes → Bytes → Bytes
token_chars [] out = out
token_chars (ch ∷ text) out = token_chars text (
    if is_alnum ch || ch == b'_' || ch == b'*'
    then out ++ ch ∷ []
    else if is_space ch
    then (if is_empty out || ends_in_space out then out else out ++ space ∷ [])
    else out)
  where
    ends_in_space : Bytes → Bool
    ends_in_space [] = false
    ends_in_space (c ∷ []) = c == space
    ends_in_space (c ∷ d ∷ s) = ends_in_space (d ∷ s)

pub normalize_type_token : Bytes → Bytes
unfolding token_chars
normalize_type_token text = trim_copy (pop_space (token_chars (map to_lower text) []))

pub type_is_pointer_compat : Bytes → Bool
type_is_pointer_compat type_text =
    let t = map to_lower type_text in has_char b'*' t || contains t (codes "ptr") || has_char b'&' t

pub type_is_void_compat : Bytes → Bool
unfolding normalize_type_token
type_is_void_compat type_text = eqb (normalize_type_token type_text) (codes "void")

pub type_is_int_compat : Bytes → Bool
unfolding normalize_type_token
type_is_int_compat type_text = elem (normalize_type_token type_text) (
    codes "int"
    ∷ codes "signed int"
    ∷ codes "unsigned int"
    ∷ codes "int32_t"
    ∷ codes "uint32_t"
    ∷ [])

abbrev pub integral_parts : List Bytes
integral_parts =
    codes "int"
    ∷ codes "char"
    ∷ codes "short"
    ∷ codes "long"
    ∷ codes "bool"
    ∷ codes "int8"
    ∷ codes "int16"
    ∷ codes "int32"
    ∷ codes "int64"
    ∷ codes "uint8"
    ∷ codes "uint16"
    ∷ codes "uint32"
    ∷ codes "uint64"
    ∷ codes "size_t"
    ∷ codes "ssize_t"
    ∷ codes "dword"
    ∷ codes "word"
    ∷ codes "byte"
    ∷ []

pub type_is_integral_compat : Bytes → Bool
unfolding normalize_type_token
type_is_integral_compat type_text =
    let t = normalize_type_token type_text in
    if is_empty t then false else any (λ token. contains t token) integral_parts

abbrev contains_any : Bytes → List Bytes → Bool
contains_any t parts = any (λ p. contains t p) parts

pub estimate_type_size : Bytes → ℤ
estimate_type_size type_text =
    let t = map to_lower type_text in
    if is_empty t
    then pos 8
    else if contains_any t (codes "*" ∷ codes "&" ∷ codes "ptr" ∷ [])
    then pos 8
    else if contains_any t (codes "int8" ∷ codes "uint8" ∷ codes "char" ∷ [])
    then pos 1
    else if contains_any t (codes "int16" ∷ codes "uint16" ∷ codes "short" ∷ [])
    then pos 2
    else if contains_any t (codes "int32" ∷ codes "uint32" ∷ codes "float" ∷ [])
    then pos 4
    else if contains_any t
        (codes "int64" ∷ codes "uint64" ∷ codes "double" ∷ codes "long long" ∷ [])
    then pos 8
    else if contains t (codes "bool")
    then pos 1
    else pos 8

abbrev pub colon : ℕ
colon = b':'

-- The size field of a language id.
pub language_bits : Bytes → Option ℕ
language_bits bits_str =
    if eqb bits_str (codes "64")
    then some 64
    else if eqb bits_str (codes "32")
    then some 32
    else if eqb bits_str (codes "16")
    then some 16
    else none

-- The size field: up to the third colon, if there is one.
pub size_field : Bytes → Bytes
size_field rest = elim (find_char colon rest) [ none ↦ rest | some third ↦ take third rest ]

-- Processor, endianness and size of a language id, or `none` where the code returns false and leaves
-- the three cleared.
pub parse_language_id : Bytes → Option (Bytes × Bytes × ℕ)
unfolding language_bits size_field
parse_language_id language_id = do
  first ← find_char colon language_id
  second ← find_char colon (drop (suc first) language_id)
  bits ← language_bits (size_field (drop (suc second) (drop (suc first) language_id)))
  some (take first language_id, take second (drop (suc first) language_id), bits)
