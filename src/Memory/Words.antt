-- ===== src/Memory/Words.antt =====
-- The 64-bit address arithmetic: `int64_t` values, their bit patterns, and the modular distance and
-- sum, `addr_distance`, `addr_add` and `span_end_incl`.
use ghidrasql.Prelude.{
  ℕ, ◌+◌, ◌-◌, ◌%◌, ◌^◌, ℤ, pos, negsuc, ◌+ℤ◌, ◌-ℤ◌, ◌≤ℤ◌, ltb_ℤ, min_ℤ, ◌≡◌, arith, ltb,
  if◌then◌else◌,
}

abbrev pub int64_max : ℤ
int64_max = pos (2 ^ 63 - 1)

abbrev pub int64_min : ℤ
int64_min = negsuc (2 ^ 63 - 1)

-- The values of an `int64_t`.
abbrev pub InInt64 : ℤ → Type 0
InInt64 a = (int64_min ≤ℤ a) × (a ≤ℤ int64_max)

-- `static_cast<std::uint64_t>`
unfoldable pub u64_of : ℤ → ℕ
u64_of (pos n) = n % 2 ^ 64
u64_of (negsuc n) = 2 ^ 64 - 1 - n % 2 ^ 64

-- `static_cast<std::int64_t>` of a number below 2 ^ 64.
unfoldable pub i64_of : ℕ → ℤ
i64_of w = if ltb w (2 ^ 63) then pos w else negsuc (2 ^ 64 - 1 - w)

unfoldable pub addr_distance : ℤ → ℤ → ℕ
unfolding u64_of
addr_distance lo hi = (u64_of hi + 2 ^ 64 - u64_of lo) % 2 ^ 64

unfoldable pub addr_add : ℤ → ℕ → ℤ
unfolding u64_of i64_of
addr_add base delta = i64_of ((u64_of base + delta) % 2 ^ 64)

unfoldable pub span_end_incl : ℤ → ℤ → ℤ
unfolding u64_of i64_of ◌-ℤ◌
span_end_incl start span =
    let end = i64_of ((u64_of start + u64_of (span -ℤ pos 1)) % 2 ^ 64) in
    if ltb_ℤ end start then int64_max else end

-- Between two `int64_t` addresses in order, the distance is the exact difference.
pub addr_distance_lem :
    (lo hi : ℤ) → InInt64 lo → InInt64 hi → lo ≤ℤ hi → pos (addr_distance lo hi) ≡ hi -ℤ lo
unfolding addr_distance ◌-ℤ◌
addr_distance_lem (pos a) (pos b) p q h = ground arith
addr_distance_lem (pos a) (negsuc b) p q h = ground arith
addr_distance_lem (negsuc a) (pos b) p q h = ground arith
addr_distance_lem (negsuc a) (negsuc b) p q h = ground arith

-- As long as it stays within `int64_t`, the modular sum is the exact sum.
pub addr_add_lem :
    (base : ℤ) (delta : ℕ)
    → InInt64 base
    → base +ℤ pos delta ≤ℤ int64_max
    → addr_add base delta ≡ base +ℤ pos delta
unfolding addr_add ◌+ℤ◌
addr_add_lem (pos a) delta p h = ground arith
addr_add_lem (negsuc a) delta p h = ground arith

-- The inclusive end of a span of at least one byte is the exact end, cut off at the greatest
-- address.
pub span_end_incl_lem :
    (start span : ℤ)
    → InInt64 start
    → InInt64 span
    → pos 1 ≤ℤ span
    → span_end_incl start span ≡ min_ℤ (start +ℤ (span -ℤ pos 1)) int64_max
unfolding span_end_incl ◌+ℤ◌
span_end_incl_lem (pos a) (pos s) p q h = ground arith
span_end_incl_lem (negsuc a) (pos s) p q h = ground arith
span_end_incl_lem (pos a) (negsuc s) p q h = absurd (omega arith)
span_end_incl_lem (negsuc a) (negsuc s) p q h = absurd (omega arith)
