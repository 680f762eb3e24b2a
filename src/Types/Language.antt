-- ===== src/Types/Language.antt =====
-- Printing a language id and reading it again.
use ghidrasql.Prelude.{
  ℕ, suc, true, subst, sym, codes, false, Bool-cases, inl, inr, eqb, eqb_iff, to_dec, if◌then◌else◌,
  List, Option, none, some, [], ◌∷◌, ◌++◌, append-nil, ◌≡◌, ◌≢◌, refl, ap, ◌∙◌, arith, ◌==◌, ◌>>=◌,
  Bytes, find_char, length, take, drop, All,
}
use ghidrasql.Types.{colon, language_bits, size_field, parse_language_id}

abbrev pub NoColon : Bytes → Type 0
NoColon = All (λ c. c ≢ colon)

not_colon : (c : ℕ) → c ≢ colon → (c == colon) ≡ false
not_colon c h = ground arith

find_char-append :
    (s rest : Bytes) → NoColon s → find_char colon (s ++ colon ∷ rest) ≡ some (length s)
unfolding find_char
find_char-append [] rest h = refl
find_char-append (c ∷ s) rest h = rw (not_colon c h.0, find_char-append s rest h.1) refl

find_char-none : (s : Bytes) → NoColon s → find_char colon s ≡ none
unfolding find_char
find_char-none [] h = refl
find_char-none (c ∷ s) h = rw (not_colon c h.0, find_char-none s h.1) refl

take-front : (s rest : Bytes) → take (length s) (s ++ rest) ≡ s
take-front [] rest = refl
take-front (c ∷ s) rest = ap (λ t. c ∷ t) (take-front s rest)

drop-front : (s rest : Bytes) (c : ℕ) → drop (suc (length s)) (s ++ c ∷ rest) ≡ rest
drop-front [] rest c = refl
drop-front (d ∷ s) rest c = drop-front s rest c

-- The variant at the end of an id, which may be absent.
abbrev pub variant_text : Option Bytes → Bytes
variant_text none = []
variant_text (some v) = colon ∷ v

size_field-variant :
    (size : Bytes) (variant : Option Bytes)
    → NoColon size
    → size_field (size ++ variant_text variant) ≡ size
unfolding size_field
size_field-variant size none h =
    ap size_field (append-nil size) ∙ (rw (size_field, find_char-none size h) refl)
size_field-variant size (some v) h =
    rw (size_field, find_char-append size v h) (take-front size (colon ∷ v))

-- The accepted size that a text is the decimal form of.
abbrev pub printed_size : Bytes → List ℕ → Option ℕ
printed_size size [] = none
printed_size size (n ∷ sizes) = if eqb size (to_dec n) then some n else printed_size size sizes

language_bits_lem : (size : Bytes) → language_bits size ≡ printed_size size (16 ∷ 32 ∷ 64 ∷ [])
unfolding language_bits to_dec eqb
language_bits_lem size = elim (Bool-cases (eqb size (codes "64"))) [
  | inl e ↦ at_text (codes "64") e refl
  | inr e ↦ elim (Bool-cases (eqb size (codes "32"))) [
    | inl f ↦ at_text (codes "32") f refl
    | inr f ↦ rw (e, f) refl
  ]
]
  where
    at_text :
        (t : Bytes)
        → eqb size t ≡ true
        → language_bits t ≡ printed_size t (16 ∷ 32 ∷ 64 ∷ [])
        → language_bits size ≡ printed_size size (16 ∷ 32 ∷ 64 ∷ [])
    at_text t e h =
        subst (λ s. language_bits s ≡ printed_size s (16 ∷ 32 ∷ 64 ∷ []))
          (sym ((eqb_iff size t).0 e)) h

-- An id of a processor, an endianness, a size and perhaps a variant, the first three without a
-- colon, is read as that processor, that endianness and the number 16, 32 or 64 whose decimal form the
-- size is; for any other size nothing is read.
pub parse_language_id_lem :
    (processor endian size : Bytes) (variant : Option Bytes)
    → NoColon processor
    → NoColon endian
    → NoColon size
    → parse_language_id (processor ++ colon ∷ (endian ++ colon ∷ (size ++ variant_text variant)))
      ≡ (printed_size size (16 ∷ 32 ∷ 64 ∷ []) >>= λ bits. some (processor, endian, bits))
unfolding parse_language_id
parse_language_id_lem processor endian size variant h k l =
    let second = endian ++ colon ∷ (size ++ variant_text variant) in
    rw
      (
        find_char-append processor second h,
        drop-front processor second colon,
        find_char-append endian (size ++ variant_text variant) k,
        drop-front endian (size ++ variant_text variant) colon,
        size_field-variant size variant l,
        take-front processor (colon ∷ second),
        take-front endian (colon ∷ (size ++ variant_text variant)),
      )
      (ap (λ b. b >>= λ bits. some (processor, endian, bits)) (language_bits_lem size))
