-- ===== src/Ranges.antt =====
-- The address ranges of src/lib/src/entities_detail.cpp: which function and which segment hold an
-- address. One record serves `FunctionRange` and `SegmentRange`, which differ in the value that a
-- range carries. `std::sort` is an insertion sort (it leaves equal starts in their order, which the
-- library does not promise). Sums of addresses are exact: the code's own would overflow, which C++
-- leaves undefined.
pub mod Sorted
pub mod Lookup
use ghidrasql.Prelude.{
  ℕ, zero, suc, ℤ, pos, negsuc, ◌+ℤ◌, ltb_ℤ, leb_ℤ, max_ℤ, Bool, true, false, ◌&&◌, Option, none,
  some, List, [], ◌∷◌, map, if◌then◌else◌, Bytes, get_elem?, sort_by,
}
use ghidrasql.Model.{FunctionRow, SegmentRow}

pub record Range (A : Type 0) : Type 0 where
  pub start : ℤ
  pub end : ℤ
  pub value : A

abbrev pub FunctionRange : Type 0
FunctionRange = Range ℤ

abbrev pub SegmentRange : Type 0
SegmentRange = Range Bytes

module _ {A : Type 0} where
  -- Whether an address lies in a range.
  abbrev pub covers : Range A → ℤ → Bool
  covers r address = leb_ℤ r.start address && ltb_ℤ address r.end

  starts_before : Range A → Range A → Bool
  starts_before r s = ltb_ℤ r.start s.start

  -- `std::sort` by the start.
  unfoldable pub sort : List (Range A) → List (Range A)
  unfolding starts_before sort_by
  sort = sort_by starts_before

  -- `std::upper_bound`: the index of the first range that starts behind the address.
  unfoldable pub upper_bound : ℤ → List (Range A) → ℕ
  upper_bound address [] = 0
  upper_bound address (r ∷ rs) = if ltb_ℤ address r.start then 0 else suc (upper_bound address rs)

  -- `it == begin()`, or the range in front of `it`.
  unfoldable pub range_before : List (Range A) → ℕ → Option (Range A)
  range_before ranges zero = none
  range_before ranges (suc i) = get_elem? ranges i

  unfoldable pub value_in : Option (Range A) → ℤ → A → A
  value_in none address absent = absent
  value_in (some r) address absent = if covers r address then r.value else absent

  -- The lookup that `function_for_address` and `segment_name_for_address` share.
  unfoldable pub value_for_address : List (Range A) → ℤ → A → A
  unfolding upper_bound range_before value_in
  value_for_address [] address absent = absent
  value_for_address (r ∷ rs) address absent =
      value_in (range_before (r ∷ rs) (upper_bound address (r ∷ rs))) address absent

segment_range : SegmentRow → SegmentRange
segment_range seg = record { start = seg.start_ea; end = seg.end_ea; value = seg.name }

pub build_segment_ranges : List SegmentRow → List SegmentRange
unfolding segment_range sort
build_segment_ranges segments = sort (map segment_range segments)

pub segment_name_for_address : List SegmentRange → ℤ → Bytes
unfolding value_for_address
segment_name_for_address ranges address = value_for_address ranges address []

unfoldable pub function_range : FunctionRow → FunctionRange
unfolding ◌+ℤ◌
function_range fn = record {
  start = fn.address;
  end = if ltb_ℤ fn.address fn.end_ea then fn.end_ea else fn.address +ℤ max_ℤ fn.size (pos 1);
  value = fn.address;
}

pub build_function_ranges : List FunctionRow → List FunctionRange
unfolding function_range sort
build_function_ranges functions = sort (map function_range functions)

-- `function_for_address` over ranges.
pub range_function_for_address : List FunctionRange → ℤ → ℤ
unfolding value_for_address
range_function_for_address ranges address = value_for_address ranges address (pos 0)

-- The end of a function in the scan: the two assignments to `fn_end`.
scan_end : FunctionRow → ℤ
unfolding ◌+ℤ◌
scan_end fn =
    let sized =
      if leb_ℤ fn.end_ea fn.address && ltb_ℤ (pos 0) fn.size
      then fn.address +ℤ fn.size
      else fn.end_ea in
    if leb_ℤ sized fn.address then fn.address +ℤ pos 1 else sized

-- `function_for_address` over the rows: the first function whose bytes hold the address.
pub function_for_address : List FunctionRow → ℤ → ℤ
unfolding scan_end
function_for_address [] address = pos 0
function_for_address (fn ∷ functions) address =
    if leb_ℤ fn.address address && ltb_ℤ address (scan_end fn)
    then fn.address
    else function_for_address functions address
