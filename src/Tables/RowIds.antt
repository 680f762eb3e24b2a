-- ===== src/Tables/RowIds.antt =====
-- The row ids that pack an address and a slot: `encode_address_slot_rowid`, `encode_address_rowid` and
-- `decode_scaled_address_rowid`. A product or a sum that is no `int64_t`, which C++ leaves undefined,
-- is `none`; the sums of the decoder never leave `int64_t`.
pub mod RoundTrip
use ghidrasql.Prelude.{
  ℕ, suc, ◌+◌, ◌*◌, ◌/◌, ◌%◌, ℤ, pos, negsuc, pos_part, sub_ℕ, ◌+ℤ◌, ◌-ℤ◌, ltb_ℤ, leb_ℤ, Bool, ◌&&◌,
  Option, none, some, if◌then◌else◌, ◌>>=◌,
}
use ghidrasql.Memory.Words.{int64_min, int64_max}

abbrev comments_per_address : ℕ
comments_per_address = 16

abbrev rows_per_address : ℕ
rows_per_address = 4096

-- `*`, `/` and `%` of an `int64_t` by a positive number: the quotient goes towards zero.
abbrev pub scaled : ℤ → ℕ → ℤ
scaled (pos n) k = pos (n * k)
scaled (negsuc n) k = sub_ℕ 0 (suc n * k)

abbrev pub quotient : ℤ → ℕ → ℤ
quotient (pos n) k = pos (n / k)
quotient (negsuc n) k = sub_ℕ 0 (suc n / k)

abbrev pub remainder : ℤ → ℕ → ℤ
remainder (pos n) k = pos (n % k)
remainder (negsuc n) k = sub_ℕ 0 (suc n % k)

-- The result of a signed operation of 64 bits, where C++ defines it.
abbrev pub checked : ℤ → Option ℤ
checked v = if leb_ℤ int64_min v && leb_ℤ v int64_max then some v else none

-- `address * k + slot`
abbrev pub scaled_plus : ℤ → ℕ → ℕ → Option ℤ
scaled_plus address k slot = checked (scaled address k) >>= λ v. checked (v +ℤ pos slot)

pub encode_address_slot_rowid : ℤ → ℕ → Option ℤ
unfolding ◌+ℤ◌
encode_address_slot_rowid address slot = scaled_plus address comments_per_address slot

pub encode_address_rowid : ℤ → ℕ → Option ℤ
unfolding ◌+ℤ◌
encode_address_rowid address slot = scaled_plus address rows_per_address slot

-- The address and the slot, or `none` where the code returns false.
pub decode_scaled_address_rowid : ℤ → ℤ → Option (ℤ × ℕ)
unfolding ◌+ℤ◌ ◌-ℤ◌
decode_scaled_address_rowid raw_rowid per_address =
    let k = pos_part per_address in
    let q = quotient raw_rowid k in
    let r = remainder raw_rowid k in
    if leb_ℤ per_address (pos 0)
    then none
    else if ltb_ℤ r (pos 0)
    then some (q -ℤ pos 1, pos_part (r +ℤ per_address))
    else some (q, pos_part r)

pub decode_address_slot_rowid : ℤ → Option (ℤ × ℕ)
unfolding decode_scaled_address_rowid
decode_address_slot_rowid raw_rowid =
    decode_scaled_address_rowid raw_rowid (pos comments_per_address)

pub decode_address_rowid : ℤ → Option (ℤ × ℕ)
unfolding decode_scaled_address_rowid
decode_address_rowid raw_rowid = decode_scaled_address_rowid raw_rowid (pos rows_per_address)
