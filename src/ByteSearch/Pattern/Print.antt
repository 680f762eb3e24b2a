-- ===== src/ByteSearch/Pattern/Print.antt =====
-- A pattern that is printed is parsed back, with or without blanks.
use ghidrasql.Prelude.{
  ℕ, ◌&&◌, ◌||◌, ◌==◌, leb, ◌+◌, ◌-◌, ◌≤◌, ◌*◌, ◌/◌, ◌%◌, ◌<◌, Bool, true, false, none, some, List,
  [], ◌∷◌, ◌++◌, length, is_empty, Bytes, is_space, is_digit, append-nil, map, ◌⊎◌, ◌≡◌, refl, sym,
  ap, ◌∙◌, arith, All, inl, inr, Option-cases, length-append,
}
use ghidrasql.ByteSearch.Pattern.{
  ByteSearchPatternByte, nib, pattern_byte, parse_pairs, without_blanks, byte_search_parse,
  hex_digit, hex_rest, byte_search_hex,
}

-- A digit of a pattern: a nibble, one of 10 to 15 as a capital letter, or a wildcard.
pub data Digit : Type 0 where
  nibble : (n : ℕ) → n < 16 → Digit
  capital : (n : ℕ) → 10 ≤ n → n < 16 → Digit
  wildcard : Digit

abbrev pub digit_char : Digit → ℕ
digit_char (nibble n h) = hex_digit n
digit_char (capital n k h) = b'A' + (n - 10)
digit_char wildcard = b'?'

abbrev pub digit_value : Digit → ℕ × Bool
digit_value (nibble n h) = (n, false)
digit_value (capital n k h) = (n, false)
digit_value wildcard = (0, true)

nib-digit_char : (d : Digit) → nib (digit_char d) ≡ some (digit_value d)
unfolding nib is_digit
nib-digit_char (nibble n h) = ground arith
nib-digit_char (capital n k h) = ground arith
nib-digit_char wildcard = refl

not_blank : (d : Digit) → is_space (digit_char d) ≡ false
unfolding is_space
not_blank (nibble n h) = ground arith
not_blank (capital n k h) = ground arith
not_blank wildcard = refl

-- The digits of a pattern, without blanks, and the bytes that they stand for.
abbrev pub digits : List (Digit × Digit) → Bytes
digits [] = []
digits (cell ∷ cells) = digit_char cell.0 ∷ digit_char cell.1 ∷ digits cells

abbrev pub pattern_of : List (Digit × Digit) → List ByteSearchPatternByte
pattern_of [] = []
pattern_of (cell ∷ cells) =
    pattern_byte (digit_value cell.0) (digit_value cell.1) ∷ pattern_of cells

parse_pairs_cons :
    (cell : Digit × Digit) (rest : Bytes)
    → parse_pairs (digit_char cell.0 ∷ digit_char cell.1 ∷ rest) ≡ (
      (parse_pairs rest).0,
      pattern_byte (digit_value cell.0) (digit_value cell.1) ∷ (parse_pairs rest).1,
    )
unfolding parse_pairs
parse_pairs_cons cell rest =
    rw (nib-digit_char cell.0, parse_pairs, nib-digit_char cell.1, parse_pairs)

parse_pairs-digits :
    (cells : List (Digit × Digit)) (rest : Bytes)
    → parse_pairs (digits cells ++ rest)
      ≡ ((parse_pairs rest).0, pattern_of cells ++ (parse_pairs rest).1)
parse_pairs-digits [] rest = refl
parse_pairs-digits (cell ∷ cells) rest =
    parse_pairs_cons cell (digits cells ++ rest) ∙ rw (parse_pairs-digits cells rest) refl

even_digits : (cells : List (Digit × Digit)) (n : ℕ) → (length (digits cells) + n) % 2 ≡ n % 2
even_digits [] n = omega arith
even_digits (cell ∷ cells) n = omega (arith, even_digits cells n)

pub byte_search_parse_lem :
    (text : Bytes) (cell : Digit × Digit) (cells : List (Digit × Digit))
    → without_blanks text ≡ digits (cell ∷ cells)
    → byte_search_parse text ≡ (true, pattern_of (cell ∷ cells))
unfolding byte_search_parse
byte_search_parse_lem text cell cells h = rw (h, whole, even) refl
  where
    whole : parse_pairs (digits (cell ∷ cells)) ≡ (true, pattern_of (cell ∷ cells))
    whole =
        ap parse_pairs (sym (append-nil (digits (cell ∷ cells))))
        ∙ parse_pairs-digits (cell ∷ cells) []
        ∙ ap (λ p. (true, p)) (append-nil (pattern_of (cell ∷ cells)))

    even : length (digits (cell ∷ cells)) % 2 ≡ 0
    even = omega (arith, even_digits (cell ∷ cells) 0)

-- Whether a character is a hexadecimal digit of either case or a wildcard.
abbrev pub is_pattern_char : ℕ → Bool
is_pattern_char c =
    c == b'?'
    || (leb b'0' c && leb c b'9')
    || (leb b'a' c && leb c b'f')
    || (leb b'A' c && leb c b'F')

nib-none : (c : ℕ) → is_pattern_char c ≡ false → nib c ≡ none
unfolding nib is_digit
nib-none c h = ground arith

bad_pair :
    (c d : ℕ) (rest : Bytes)
    → (nib c ≡ none) ⊎ (nib d ≡ none)
    → parse_pairs (c ∷ d ∷ rest) ≡ (false, [])
unfolding parse_pairs
bad_pair c d rest (inl e) = rw (e, parse_pairs)
bad_pair c d rest (inr e) = elim (Option-cases (nib c)) [
  | inl f ↦ rw (f, parse_pairs)
  | inr (hi, f) ↦ rw (f, parse_pairs, e, parse_pairs)
]

digits_not_empty :
    (cells : List (Digit × Digit)) (c : ℕ) (s : Bytes) → is_empty (digits cells ++ (c ∷ s)) ≡ false
digits_not_empty [] c s = refl
digits_not_empty (cell ∷ cells) c s = refl

-- A text that has an even number of characters other than blanks, the first pairs of which are digits
-- (hexadecimal of either case, or wildcards) and the next pair of which is not, is refused, and the
-- bytes of those first pairs are left in the vector.
pub byte_search_parse-refused :
    (text : Bytes) (cells : List (Digit × Digit)) (c d : ℕ) (rest : Bytes)
    → without_blanks text ≡ digits cells ++ (c ∷ d ∷ rest)
    → (is_pattern_char c ≡ false) ⊎ (is_pattern_char d ≡ false)
    → length rest % 2 ≡ 0
    → byte_search_parse text ≡ (false, pattern_of cells)
unfolding byte_search_parse
byte_search_parse-refused text cells c d rest h bad even =
    rw (h, digits_not_empty cells c (d ∷ rest), even_whole, stopped) refl
  where
    unread :
        (is_pattern_char c ≡ false) ⊎ (is_pattern_char d ≡ false) → (nib c ≡ none) ⊎ (nib d ≡ none)
    unread (inl e) = inl (nib-none c e)
    unread (inr e) = inr (nib-none d e)

    stopped : parse_pairs (digits cells ++ (c ∷ d ∷ rest)) ≡ (false, pattern_of cells)
    stopped =
        parse_pairs-digits cells (c ∷ d ∷ rest)
        ∙ rw (bad_pair c d rest (unread bad), append-nil (pattern_of cells)) refl

    even_whole : length (digits cells ++ (c ∷ d ∷ rest)) % 2 ≡ 0
    even_whole = omega (
      arith,
      length-append (digits cells) (c ∷ d ∷ rest),
      even_digits cells (length (c ∷ d ∷ rest)),
      even,
    )

abbrev pub exact_byte : ℕ → ByteSearchPatternByte
exact_byte b = record { value = b; mask = 255 }

abbrev cells_of : (bytes : List ℕ) → All (λ b. b < 256) bytes → List (Digit × Digit)
cells_of [] h = []
cells_of (b ∷ bytes) h =
    (nibble (b / 16) (omega (arith, h.0)), nibble (b % 16) (omega arith)) ∷ cells_of bytes h.1

pattern_of-cells_of :
    (bytes : List ℕ) (h : All (λ b. b < 256) bytes)
    → pattern_of (cells_of bytes h) ≡ map exact_byte bytes
pattern_of-cells_of [] h = refl
pattern_of-cells_of (b ∷ bytes) h =
    rw (pattern_of-cells_of bytes h.1)
      (ap (λ p. p ∷ map exact_byte bytes) (whole_byte (b / 16 * 16 + b % 16) (omega arith)))
  where
    whole_byte : (v : ℕ) → v ≡ b → record { value = v; mask = 255 } ≡ exact_byte b
    whole_byte v e = ap exact_byte e

hex_not_blank : (n : ℕ) → n < 16 → is_space (hex_digit n) ≡ false
hex_not_blank n h = not_blank (nibble n h)

without_blanks-hex_rest :
    (bytes : List ℕ) (h : All (λ b. b < 256) bytes)
    → without_blanks (hex_rest bytes) ≡ digits (cells_of bytes h)
unfolding without_blanks hex_rest
without_blanks-hex_rest [] h = refl
without_blanks-hex_rest (b ∷ bytes) h =
    rw (hex_not_blank (b / 16) (omega (arith, h.0)), hex_not_blank (b % 16) (omega arith))
      (ap (λ s. hex_digit (b / 16) ∷ hex_digit (b % 16) ∷ s) (without_blanks-hex_rest bytes h.1))

without_blanks-byte_search_hex :
    (b : ℕ) (bytes : List ℕ) (h : All (λ x. x < 256) (b ∷ bytes))
    → without_blanks (byte_search_hex (b ∷ bytes)) ≡ digits (cells_of (b ∷ bytes) h)
unfolding without_blanks byte_search_hex
without_blanks-byte_search_hex b bytes h =
    rw (hex_not_blank (b / 16) (omega (arith, h.0)), hex_not_blank (b % 16) (omega arith))
      (ap (λ s. hex_digit (b / 16) ∷ hex_digit (b % 16) ∷ s) (without_blanks-hex_rest bytes h.1))

-- The text that is printed for the bytes of a match is, as a pattern, that of the same bytes without
-- wildcards.
pub byte_search_parse-byte_search_hex :
    (b : ℕ) (bytes : List ℕ)
    → All (λ x. x < 256) (b ∷ bytes)
    → byte_search_parse (byte_search_hex (b ∷ bytes)) ≡ (true, map exact_byte (b ∷ bytes))
byte_search_parse-byte_search_hex b bytes h =
    byte_search_parse_lem (byte_search_hex (b ∷ bytes))
      (nibble (b / 16) (omega (arith, h.0)), nibble (b % 16) (omega arith)) (cells_of bytes h.1)
      (without_blanks-byte_search_hex b bytes h)
    ∙ ap (λ p. (true, p)) (pattern_of-cells_of (b ∷ bytes) h)
