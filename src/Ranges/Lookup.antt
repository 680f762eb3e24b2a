-- ===== src/Ranges/Lookup.antt =====
-- The binary search among sorted ranges finds what a search from the front finds.
use ghidrasql.Prelude.{
  ℤ, pos, ◌≤ℤ◌, ◌<ℤ◌, ltb_ℤ, leb_ℤ, true, false, ◌&&◌, List, [], ◌∷◌, map, ◌≡◌, inl, inr, refl, sym,
  ap, ◌∙◌, arith, if◌then◌else◌, All, Bool-cases, Pairwise,
}
use ghidrasql.Model.{FunctionRow}
use ghidrasql.Ranges.{
  Range, covers, sort, upper_bound, range_before, value_in, value_for_address, function_range,
  build_function_ranges, range_function_for_address, scan_end, function_for_address,
}
use ghidrasql.Ranges.Sorted.{
  Apart, AllApart, NonEmpty, NotAfter, first_value, sort-All, sort-IsSorted, sort-AllApart,
  first_value-sort,
}

module _ {A : Type 0} where
  value_for_address-before :
      (rs : List (Range A)) (address : ℤ) (absent : A)
      → value_for_address rs address absent
        ≡ value_in (range_before rs (upper_bound address rs)) address absent
  unfolding value_for_address
  value_for_address-before [] address absent = refl
  value_for_address-before (r ∷ rs) address absent = refl

  -- A range that starts at or before a later one which holds the address does not hold it.
  first_value_none :
      (rs : List (Range A)) (address : ℤ) (absent : A)
      → All (λ s. address <ℤ s.start) rs
      → first_value rs address absent ≡ absent
  first_value_none [] address absent h = refl
  first_value_none (s ∷ rs) address absent h =
      ground (arith, h.0, first_value_none rs address absent h.1)

  before_cons :
      (r s : Range A) (rs : List (Range A)) (address : ℤ)
      → leb_ℤ s.start address ≡ true
      → leb_ℤ r.start address ≡ true
      → range_before (r ∷ s ∷ rs) (upper_bound address (r ∷ s ∷ rs))
        ≡ range_before (s ∷ rs) (upper_bound address (s ∷ rs))
  unfolding range_before upper_bound
  before_cons r s rs address h k = ground arith

  starts_later :
      (rs : List (Range A)) (s : Range A) (address : ℤ)
      → All (λ t. s.start ≤ℤ t.start) rs
      → address <ℤ s.start
      → All (λ t. address <ℤ t.start) rs
  starts_later [] s address h k = tt
  starts_later (t ∷ rs) s address h k = (later t (h.0), starts_later rs s address h.1 k)
    where
      later : (u : Range A) → s.start ≤ℤ u.start → address <ℤ u.start
      later u le = omega arith

  skip_first :
      (r s : Range A) (rs : List (Range A)) (address : ℤ) (absent : A)
      → ltb_ℤ address s.start ≡ false
      → Apart r s
      → NonEmpty s
      → r.start ≤ℤ s.start
      → first_value (r ∷ s ∷ rs) address absent ≡ first_value (s ∷ rs) address absent
  skip_first r s rs address absent late d n o =
      let e : (leb_ℤ r.start address && ltb_ℤ address r.end) ≡ false = ground arith in rw e refl

  search-first_value :
      (rs : List (Range A)) (address : ℤ) (absent : A)
      → Pairwise NotAfter rs
      → AllApart rs
      → All NonEmpty rs
      → value_in (range_before rs (upper_bound address rs)) address absent
        ≡ first_value rs address absent
  search-first_value [] address absent s d n = unfold value_in range_before upper_bound in refl
  search-first_value (r ∷ []) address absent s d n =
      unfold value_in range_before upper_bound in ground arith
  search-first_value (r ∷ s ∷ rs) address absent o d n = elim (Bool-cases (ltb_ℤ address s.start)) [
    | inl early ↦
        unfold value_in range_before upper_bound in
        ground (
          arith,
          early,
          first_value_none rs address absent (starts_later rs s address o.1.0 (ground arith)),
        )
    | inr late ↦
        ap (λ q. value_in q address absent)
          (before_cons r s rs address (ground arith) (ground (arith, o.0.0)))
        ∙ search-first_value (s ∷ rs) address absent o.1 d.1 n.1
        ∙ sym (skip_first r s rs address absent late d.0.0 n.1.0 o.0.0)
  ]

  -- On sorted ranges that hold something and do not overlap, the search by `upper_bound` returns the
  -- value of the first range that holds the address.
  pub value_for_address_lem :
      (rs : List (Range A)) (address : ℤ) (absent : A)
      → AllApart rs
      → All NonEmpty rs
      → value_for_address (sort rs) address absent ≡ first_value rs address absent
  value_for_address_lem rs address absent d n =
      value_for_address-before (sort rs) address absent
      ∙ search-first_value (sort rs) address absent (sort-IsSorted rs) (sort-AllApart rs d)
          (sort-All NonEmpty rs n)
      ∙ first_value-sort rs address absent d

function_range-NonEmpty : (fn : FunctionRow) → NonEmpty (function_range fn)
unfolding function_range
function_range-NonEmpty fn = ground arith

map-NonEmpty : (functions : List FunctionRow) → All NonEmpty (map function_range functions)
map-NonEmpty [] = tt
map-NonEmpty (fn ∷ functions) = (function_range-NonEmpty fn, map-NonEmpty functions)

scan_end_lem : (fn : FunctionRow) → scan_end fn ≡ (function_range fn).end
unfolding scan_end function_range
scan_end_lem fn = ground arith

first_value-scan :
    (functions : List FunctionRow) (address : ℤ)
    → first_value (map function_range functions) address (pos 0)
      ≡ function_for_address functions address
unfolding function_for_address function_range
first_value-scan [] address = refl
first_value-scan (fn ∷ functions) address = rw (scan_end_lem fn) (
    ap (λ v. if covers (function_range fn) address then fn.address else v)
      (first_value-scan functions address))

-- Where no two functions overlap, the indexed `function_for_address` over the sorted ranges returns
-- what the scan over the rows returns, for every address.
pub range_function_for_address_lem :
    (functions : List FunctionRow) (address : ℤ)
    → AllApart (map function_range functions)
    → range_function_for_address (build_function_ranges functions) address
      ≡ function_for_address functions address
unfolding range_function_for_address build_function_ranges
range_function_for_address_lem functions address d =
    value_for_address_lem (map function_range functions) address (pos 0) d (map-NonEmpty functions)
    ∙ first_value-scan functions address
