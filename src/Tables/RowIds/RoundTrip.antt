-- ===== src/Tables/RowIds/RoundTrip.antt =====
-- Packing and unpacking are inverse, for addresses of either sign.
use ghidrasql.Prelude.{
  ℕ, ◌-◌, ◌/◌, ◌%◌, ◌^◌, ◌<◌, ℤ, pos, negsuc, leb_ℤ, Bool, ◌&&◌, none, some, if◌then◌else◌, ◌>>=◌,
  ◌≡◌, arith,
}
use ghidrasql.Memory.Words.{InInt64}
use ghidrasql.Tables.RowIds.{
  encode_address_slot_rowid, decode_address_slot_rowid, encode_address_rowid, decode_address_rowid,
}

-- The addresses from -2^n up to, and without, 2^n.
abbrev pub within : ℕ → ℤ → Bool
within n address = leb_ℤ (negsuc (2 ^ n - 1)) address && leb_ℤ address (pos (2 ^ n - 1))

-- An address from -2^59 on and below 2^59, of either sign, and a slot below 16 come back from their
-- row id; for any other address the row id overflows.
pub decode-encode_address_slot_rowid :
    (address : ℤ) (slot : ℕ)
    → slot < 16
    → (encode_address_slot_rowid address slot >>= decode_address_slot_rowid)
      ≡ (if within 59 address then some (address, slot) else none)
unfolding encode_address_slot_rowid decode_address_slot_rowid
decode-encode_address_slot_rowid (pos n) slot h = ground arith
decode-encode_address_slot_rowid (negsuc n) slot h = ground arith

-- An address from -2^51 on and below 2^51, of either sign, and a slot below 4096 come back from their
-- row id; for any other address the row id overflows.
pub decode-encode_address_rowid :
    (address : ℤ) (slot : ℕ)
    → slot < 4096
    → (encode_address_rowid address slot >>= decode_address_rowid)
      ≡ (if within 51 address then some (address, slot) else none)
unfolding encode_address_rowid decode_address_rowid
decode-encode_address_rowid (pos n) slot h = ground arith
decode-encode_address_rowid (negsuc n) slot h = ground arith

-- Any row id of 64 bits decodes to a slot below 4096 and an address that encode it again.
pub encode-decode_address_rowid :
    (raw : ℤ)
    → InInt64 raw
    → (a : ℤ) × (slot : ℕ) × (decode_address_rowid raw ≡ some (a, slot))
      × (slot < 4096)
      × (encode_address_rowid a slot ≡ some raw)
unfolding encode_address_rowid decode_address_rowid
encode-decode_address_rowid (pos n) h =
    (pos (n / 4096), n % 4096, ground arith, omega arith, ground (arith, h.0, h.1))
encode-decode_address_rowid (negsuc n) h =
    (negsuc (n / 4096), 4095 - n % 4096, ground arith, omega arith, ground (arith, h.0, h.1))
