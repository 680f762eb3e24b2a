-- ===== src/ByteSearch/Pattern.antt =====
-- The patterns of `byte_search`: `byte_search_parse` and `byte_search_hex`.
pub mod Print
use Prim.Native.Nat.{bit_and}
use ghidrasql.Prelude.{
  ℕ, ◌+◌, ◌-◌, ◌*◌, ◌/◌, ◌%◌, Bool, true, false, not, ◌&&◌, ◌||◌, ◌==◌, Option, none, some, List,
  [], ◌∷◌, if◌then◌else◌, leb, ltb, length, is_empty, Bytes, is_space, is_digit, space, select,
}

pub record ByteSearchPatternByte : Type 0 where
  pub value : ℕ
  pub mask : ℕ

-- `nib`: the value of a digit and whether it is a wildcard.
unfoldable pub nib : ℕ → Option (ℕ × Bool)
unfolding is_digit
nib c =
    if c == b'?'
    then some (0, true)
    else if is_digit c
    then some (c - b'0', false)
    else if leb b'a' c && leb c b'f'
    then some (10 + c - b'a', false)
    else if leb b'A' c && leb c b'F'
    then some (10 + c - b'A', false)
    else none

-- `pb`
abbrev pub pattern_byte : ℕ × Bool → ℕ × Bool → ByteSearchPatternByte
pattern_byte hi lo = record {
  value = hi.0 * 16 + lo.0;
  mask = (if hi.1 then 0 else 240) + (if lo.1 then 0 else 15);
}

-- The loop over the pairs: false where it returns early, and what it leaves in `out`.
unfoldable pub parse_pairs : Bytes → Bool × List ByteSearchPatternByte
unfolding nib
parse_pairs [] = (true, [])
parse_pairs (c ∷ []) = (true, [])
parse_pairs (c ∷ d ∷ s) = elim (nib c) [
  | none ↦ (false, [])
  | some hi ↦ elim (nib d) [
    | none ↦ (false, [])
    | some lo ↦ ((parse_pairs s).0, pattern_byte hi lo ∷ (parse_pairs s).1)
  ]
]

-- `s`, the pattern without its blanks.
unfoldable pub without_blanks : Bytes → Bytes
unfolding is_space
without_blanks pattern = select (λ c. not (is_space c)) pattern

-- The flag that is returned, and what is left in `out`.
unfoldable pub byte_search_parse : Bytes → Bool × List ByteSearchPatternByte
unfolding without_blanks parse_pairs
byte_search_parse pattern =
    let s = without_blanks pattern in
    let pairs = parse_pairs s in
    if is_empty s || not (length s % 2 == 0)
    then (false, [])
    else if not pairs.0
    then (false, pairs.1)
    else (not (is_empty pairs.1), pairs.1)

-- `d[n]`
abbrev pub hex_digit : ℕ → ℕ
hex_digit n = if ltb n 10 then b'0' + n else b'a' + (n - 10)

abbrev pub hex_pair : ℕ → Bytes → Bytes
hex_pair b rest = hex_digit (b / 16) ∷ hex_digit (b % 16) ∷ rest

-- The rounds of the loop behind the first byte.
unfoldable pub hex_rest : List ℕ → Bytes
hex_rest [] = []
hex_rest (b ∷ bytes) = space ∷ hex_pair b (hex_rest bytes)

unfoldable pub byte_search_hex : List ℕ → Bytes
unfolding hex_rest
byte_search_hex [] = []
byte_search_hex (b ∷ bytes) = hex_pair b (hex_rest bytes)

-- The test of one byte of a page.
unfoldable pub byte_matches : ByteSearchPatternByte → ℕ → Bool
byte_matches p b = bit_and b p.mask == bit_and p.value p.mask
