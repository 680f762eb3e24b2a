-- ===== src/Memory/Spans.antt =====
-- How many bytes a listed instruction, string or data item covers, and whether it meets a window:
-- the `*_byte_span` functions and `byte_span_intersects_range` of src/lib/src/source.cpp, and
-- `hex_nibble` of entities_detail.cpp.
use ghidrasql.Prelude.{
  ℕ, suc, ◌+◌, ◌-◌, ◌*◌, ◌<◌, ℤ, pos, ◌+ℤ◌, ◌-ℤ◌, ◌≤ℤ◌, ◌<ℤ◌, ltb_ℤ, leb_ℤ, max_ℤ, min_ℤ, Bool,
  true, false, not, ◌&&◌, ◌||◌, Option, none, some, List, [], ◌∷◌, ◌≡◌, ◌↔◌, inl, inr, refl, arith,
  leb, if◌then◌else◌, Bytes, is_digit, length, All, Option-cases, ap, sym, ◌∙◌, +ℤ_parts, -ℤ_parts,
}
use ghidrasql.Model.{InstructionRow, StringRow, DataItemRow}
use ghidrasql.Memory.Words.{InInt64, int64_max, span_end_incl, span_end_incl_lem}

-- `hex_nibble`, with `none` for -1.
unfoldable pub hex_nibble : ℕ → Option ℕ
unfolding is_digit
hex_nibble ch =
    if is_digit ch
    then some (ch - b'0')
    else if leb b'a' ch && leb ch b'f'
    then some (10 + (ch - b'a'))
    else if leb b'A' ch && leb ch b'F'
    then some (10 + (ch - b'A'))
    else none

-- The decodable front of a text of hex digits, two to a byte: the loop that fills an instruction's
-- `fallback`.
unfoldable pub hex_bytes : Bytes → List ℕ
unfolding hex_nibble
hex_bytes [] = []
hex_bytes (c ∷ []) = []
hex_bytes (c ∷ d ∷ s) = elim (hex_nibble c) [
  | none ↦ []
  | some hi ↦ elim (hex_nibble d) [ none ↦ [] | some lo ↦ (hi * 16 + lo) ∷ hex_bytes s ]
]

is_hex : ℕ → Bool
unfolding is_digit
is_hex c = is_digit c || (leb b'a' c && leb c b'f') || (leb b'A' c && leb c b'F')

unfoldable pub decoded_hex_byte_count : Bytes → ℕ
unfolding is_hex
decoded_hex_byte_count [] = 0
decoded_hex_byte_count (c ∷ []) = 0
decoded_hex_byte_count (c ∷ d ∷ s) =
    let count = suc (decoded_hex_byte_count s) in
    if not (is_hex c) || not (is_hex d) then 0 else count

unfoldable pub instruction_byte_span : InstructionRow → ℤ
instruction_byte_span row = max_ℤ (max_ℤ row.size (pos (decoded_hex_byte_count row.bytes))) (pos 1)

unfoldable pub string_byte_span : StringRow → ℤ
string_byte_span row =
    max_ℤ (if ltb_ℤ (pos 0) row.length then row.length else pos (length row.content)) (pos 1)

unfoldable pub data_item_byte_span : DataItemRow → ℤ
data_item_byte_span row = max_ℤ row.size (pos 1)

pub byte_span_intersects_range : ℤ → ℤ → ℤ → ℤ → Bool
unfolding span_end_incl
byte_span_intersects_range item_start span start_address end_address =
    if leb_ℤ span (pos 0) || ltb_ℤ end_address start_address
    then false
    else leb_ℤ item_start end_address && leb_ℤ start_address (span_end_incl item_start span)

hex_nibble-none : (c : ℕ) → hex_nibble c ≡ none → is_hex c ≡ false
unfolding hex_nibble is_hex
hex_nibble-none c h = ground arith

hex_nibble-some : (c v : ℕ) → hex_nibble c ≡ some v → (is_hex c ≡ true) × (v < 16)
unfolding hex_nibble is_hex
hex_nibble-some c v h = ground arith

hex_bytes_first : (c d : ℕ) (s : Bytes) → hex_nibble c ≡ none → hex_bytes (c ∷ d ∷ s) ≡ []
unfolding hex_bytes
hex_bytes_first c d s h = rw (h, hex_bytes)

hex_bytes_second :
    (c d hi : ℕ) (s : Bytes)
    → hex_nibble c ≡ some hi
    → hex_nibble d ≡ none
    → hex_bytes (c ∷ d ∷ s) ≡ []
unfolding hex_bytes
hex_bytes_second c d hi s h k = rw (h, hex_bytes, k, hex_bytes)

hex_bytes_pair :
    (c d hi lo : ℕ) (s : Bytes)
    → hex_nibble c ≡ some hi
    → hex_nibble d ≡ some lo
    → hex_bytes (c ∷ d ∷ s) ≡ (hi * 16 + lo) ∷ hex_bytes s
unfolding hex_bytes
hex_bytes_pair c d hi lo s h k = rw (h, hex_bytes, k, hex_bytes)

-- The decoder reads as many bytes as the span counts, and each is a byte.
pub hex_bytes_lem :
    (hex : Bytes)
    → (length (hex_bytes hex) ≡ decoded_hex_byte_count hex) × All (λ b. b < 256) (hex_bytes hex)
unfolding decoded_hex_byte_count
hex_bytes_lem [] = unfold hex_bytes in (refl, tt)
hex_bytes_lem (c ∷ []) = unfold hex_bytes in (refl, tt)
hex_bytes_lem (c ∷ d ∷ s) = elim (Option-cases (hex_nibble c)) [
  | inl e ↦ rw (hex_bytes_first c d s e, hex_nibble-none c e) (refl, tt)
  | inr hit ↦ elim (Option-cases (hex_nibble d)) [
    | inl e ↦
        rw
          (
            hex_bytes_second c d hit.0 s hit.1 e,
            hex_nibble-none d e,
            (hex_nibble-some c hit.0 hit.1).0,
          )
          (refl, tt)
    | inr low ↦
        rw
          (
            hex_bytes_pair c d hit.0 low.0 s hit.1 low.1,
            (hex_nibble-some c hit.0 hit.1).0,
            (hex_nibble-some d low.0 low.1).0,
          )
          (
            ap suc (hex_bytes_lem s).0,
            (
              omega (arith, (hex_nibble-some c hit.0 hit.1).1, (hex_nibble-some d low.0 low.1).1),
              (hex_bytes_lem s).1,
            ),
          )
  ]
]

intersects_exact :
    (item_start span start_address end_address : ℤ)
    → InInt64 item_start
    → InInt64 span
    → pos 1 ≤ℤ span
    → start_address ≤ℤ end_address
    → byte_span_intersects_range item_start span start_address end_address ≡ (
        leb_ℤ item_start end_address
        && leb_ℤ start_address (min_ℤ (item_start +ℤ (span -ℤ pos 1)) int64_max))
unfolding byte_span_intersects_range
intersects_exact item_start span start_address end_address p q r s =
    let e : (leb_ℤ span (pos 0) || ltb_ℤ end_address start_address) ≡ false = ground arith in
    rw (e, span_end_incl_lem item_start span p q r)

-- A span of bytes is reported to meet a window exactly when some address lies in both, where the span
-- ends at its last byte or at the greatest `int64_t`.
pub byte_span_intersects_range_iff :
    (item_start span start_address end_address : ℤ)
    → InInt64 item_start
    → InInt64 span
    → (byte_span_intersects_range item_start span start_address end_address ≡ true) ↔ (
        (a : ℤ) × (item_start ≤ℤ a)
        × (a <ℤ item_start +ℤ span)
        × (a ≤ℤ int64_max)
        × (start_address ≤ℤ a)
        × (a ≤ℤ end_address))
byte_span_intersects_range_iff item_start span start_address end_address p q =
    (meets, λ m. met m.0 m.1 m.2 m.3 m.4 m.5)
  where
    proper :
        byte_span_intersects_range item_start span start_address end_address ≡ true
        → (pos 1 ≤ℤ span) × (start_address ≤ℤ end_address)
    proper h = unfold byte_span_intersects_range in ground arith

    meets :
        byte_span_intersects_range item_start span start_address end_address ≡ true
        → (a : ℤ) × (item_start ≤ℤ a)
          × (a <ℤ item_start +ℤ span)
          × (a ≤ℤ int64_max)
          × (start_address ≤ℤ a)
          × (a ≤ℤ end_address)
    meets h =
        let k = proper h in
        let t = sym (intersects_exact item_start span start_address end_address p q k.0 k.1) ∙ h in
        let near = +ℤ_parts item_start span in
        let far = +ℤ_parts item_start (span -ℤ pos 1) in
        let less = -ℤ_parts span (pos 1) in
        (
          max_ℤ item_start start_address,
          ground arith,
          ground arith,
          ground arith,
          ground arith,
          ground arith,
        )

    met :
        (a : ℤ)
        → item_start ≤ℤ a
        → a <ℤ item_start +ℤ span
        → a ≤ℤ int64_max
        → start_address ≤ℤ a
        → a ≤ℤ end_address
        → byte_span_intersects_range item_start span start_address end_address ≡ true
    met a h1 h2 h3 h4 h5 =
        let near = +ℤ_parts item_start span in
        let far = +ℤ_parts item_start (span -ℤ pos 1) in
        let less = -ℤ_parts span (pos 1) in
        intersects_exact item_start span start_address end_address p q (omega arith) (omega arith)
        ∙ (ground arith)
