-- ===== src/ByteSearch/Regions.antt =====
-- The windows and the regions of `byte_search`: `byte_search_apply_*`, the loop over the constraints in
-- `make_byte_search_generator`, and `ByteSearchGenerator::init`.
pub mod Candidates
pub mod Exact
use ghidrasql.Prelude.{
  ℕ, ◌+◌, ◌-◌, ◌*◌, ◌%◌, ◌^◌, ◌==◌, ℤ, pos, pos_part, ◌+ℤ◌, ◌-ℤ◌, ltb_ℤ, leb_ℤ, eqb_ℤ, max_ℤ, min_ℤ,
  Bool, true, false, not, ◌&&◌, ◌||◌, Option, none, some, List, [], ◌∷◌, if◌then◌else◌, ltb, length,
  is_empty, Bytes, codes, sort_by,
}
use ghidrasql.Model.{MemoryBlockRow}
use ghidrasql.Memory.Words.{int64_max, int64_min, u64_of, i64_of}
use ghidrasql.Tables.Window.{ConstraintOp, eq_op, ge_op, gt_op, le_op, lt_op, other_op}
use ghidrasql.ByteSearch.Pattern.{ByteSearchPatternByte, byte_search_parse}

unfoldable pub byte_search_addr_distance : ℤ → ℤ → ℕ
unfolding u64_of
byte_search_addr_distance lo hi = (u64_of hi + 2 ^ 64 - u64_of lo) % 2 ^ 64

unfoldable pub byte_search_addr_add : ℤ → ℕ → ℤ
unfolding u64_of i64_of
byte_search_addr_add base delta = i64_of ((u64_of base + delta) % 2 ^ 64)

pub record ByteSearchRegion : Type 0 where
  pub start : ℤ
  pub end_incl : ℤ

pub record ByteSearchWindow : Type 0 where
  pub lo : ℤ
  pub hi : ℤ
  pub empty : Bool

abbrev pub search_window : ByteSearchWindow
search_window = record { lo = int64_min; hi = int64_max; empty = false }

unfoldable pub byte_search_apply_lower : ByteSearchWindow → ℤ → ByteSearchWindow
byte_search_apply_lower window value = record window { lo = max_ℤ window.lo value }

unfoldable pub byte_search_apply_exclusive_upper : ByteSearchWindow → ℤ → ByteSearchWindow
byte_search_apply_exclusive_upper window value =
    if eqb_ℤ value int64_min
    then record window { empty = true }
    else record window { hi = min_ℤ window.hi (value -ℤ pos 1) }

unfoldable pub byte_search_apply_inclusive_upper : ByteSearchWindow → ℤ → ByteSearchWindow
byte_search_apply_inclusive_upper window value = record window { hi = min_ℤ window.hi value }

-- The columns that a constraint may be on; every other one is `other_column`.
pub data ByteSearchColumn : Type 0 where
  addr_column pattern_column start_column end_column : ByteSearchColumn
  max_results_column other_column : ByteSearchColumn

-- A constraint: its value as a number and as a text, empty where the text is a null pointer.
pub record SearchArg : Type 0 where
  pub column : ByteSearchColumn
  pub op : ConstraintOp
  pub number : ℤ
  pub text : Bytes

-- `pattern`, `window` and `max_results`.
pub record SearchInputs : Type 0 where
  pub pattern : Bytes
  pub window : ByteSearchWindow
  pub max_results : ℕ

abbrev pub no_inputs : SearchInputs
no_inputs = record { pattern = []; window = search_window; max_results = 0 }

abbrev pub is_eq : ConstraintOp → Bool
is_eq eq_op = true
is_eq ge_op = false
is_eq gt_op = false
is_eq le_op = false
is_eq lt_op = false
is_eq other_op = false

-- The case of `kByteSearchAddr`.
unfoldable pub addr_constraint : ConstraintOp → ℤ → ByteSearchWindow → ByteSearchWindow
unfolding byte_search_apply_lower byte_search_apply_exclusive_upper
    byte_search_apply_inclusive_upper
addr_constraint ge_op value window = byte_search_apply_lower window value
addr_constraint gt_op value window =
    if eqb_ℤ value int64_max
    then record window { empty = true }
    else byte_search_apply_lower window (value +ℤ pos 1)
addr_constraint lt_op value window = byte_search_apply_exclusive_upper window value
addr_constraint le_op value window = byte_search_apply_inclusive_upper window value
addr_constraint eq_op value window = window
addr_constraint other_op value window = window

unfoldable pub apply_arg : ByteSearchColumn → SearchArg → SearchInputs → SearchInputs
unfolding addr_constraint byte_search_apply_lower byte_search_apply_exclusive_upper
apply_arg pattern_column a inputs =
    if is_eq a.op then record inputs { pattern = a.text } else inputs
apply_arg start_column a inputs =
    if is_eq a.op
    then record inputs { window = byte_search_apply_lower inputs.window a.number }
    else inputs
apply_arg end_column a inputs =
    if is_eq a.op
    then record inputs { window = byte_search_apply_exclusive_upper inputs.window a.number }
    else inputs
apply_arg max_results_column a inputs =
    if is_eq a.op && ltb_ℤ (pos 0) a.number
    then record inputs { max_results = pos_part a.number }
    else inputs
apply_arg addr_column a inputs = record inputs {
  window = addr_constraint a.op a.number inputs.window;
}
apply_arg other_column a inputs = inputs

unfoldable pub fold_args : List SearchArg → SearchInputs → SearchInputs
unfolding apply_arg
fold_args [] inputs = inputs
fold_args (a ∷ args) inputs = fold_args args (apply_arg a.column a inputs)

-- What the constructor of `ByteSearchGenerator` is given.
pub record Search : Type 0 where
  pub pattern : List ByteSearchPatternByte
  pub window_lo : ℤ
  pub window_hi : ℤ
  pub empty : Bool
  pub max_results : ℕ

abbrev pub page_candidates : ℕ
page_candidates = 32 * 1024

-- The generator, and the message that is reported for a pattern that is too long.
unfoldable pub make_byte_search_generator : List SearchArg → Search × Option Bytes
unfolding fold_args
make_byte_search_generator args =
    let inputs = fold_args args no_inputs in
    let parsed = (byte_search_parse inputs.pattern).1 in
    let w = inputs.window in
    if ltb (2 ^ 32 - 1 - page_candidates + 1) (length parsed)
    then (
      record {
        pattern = [];
        window_lo = w.lo;
        window_hi = w.hi;
        empty = true;
        max_results = inputs.max_results;
      },
      some (codes "byte_search pattern is too large for the ReadBytes protocol"),
    )
    else (
      record {
        pattern = parsed;
        window_lo = w.lo;
        window_hi = w.hi;
        empty = w.empty || ltb_ℤ w.hi w.lo;
        max_results = inputs.max_results;
      },
      none,
    )

unfoldable pub starts_first : MemoryBlockRow → MemoryBlockRow → Bool
starts_first lhs rhs = ltb_ℤ lhs.start_ea rhs.start_ea

abbrev pub search_clipped : ℤ → ℤ → Option ByteSearchRegion
search_clipped start end_incl =
    if ltb_ℤ end_incl start then none else some (record { start = start; end_incl = end_incl })

-- What is left of a region behind one that ends at `back`.
abbrev pub search_behind : Option ℤ → ℤ → ℤ → Option ByteSearchRegion
search_behind none start end_incl = some (record { start = start; end_incl = end_incl })
search_behind (some back) start end_incl =
    if leb_ℤ start back
    then (if eqb_ℤ back int64_max then none else search_clipped (back +ℤ pos 1) end_incl)
    else some (record { start = start; end_incl = end_incl })

-- One round of the loop over the blocks.
unfoldable pub search_region : ℕ → ℤ → ℤ → Option ℤ → MemoryBlockRow → Option ByteSearchRegion
unfolding byte_search_addr_distance byte_search_addr_add
search_region pattern_len window_lo window_hi back blk =
    let size = byte_search_addr_distance blk.start_ea blk.end_ea in
    let start = max_ℤ blk.start_ea window_lo in
    let end_incl = min_ℤ (byte_search_addr_add blk.start_ea (size - pattern_len)) window_hi in
    if blk.is_initialized == 0 || leb_ℤ blk.end_ea blk.start_ea
    then none
    else if ltb size pattern_len
    then none
    else if ltb_ℤ end_incl start
    then none
    else search_behind back start end_incl

unfoldable pub search_loop : ℕ → ℤ → ℤ → Option ℤ → List MemoryBlockRow → List ByteSearchRegion
unfolding search_region
search_loop pattern_len window_lo window_hi back [] = []
search_loop pattern_len window_lo window_hi back (blk ∷ blocks) =
    elim (search_region pattern_len window_lo window_hi back blk) [
      | none ↦ search_loop pattern_len window_lo window_hi back blocks
      | some r ↦ r ∷ search_loop pattern_len window_lo window_hi (some r.end_incl) blocks
    ]

-- The regions that `init` lists.
unfoldable pub search_regions : ℕ → ℤ → ℤ → List MemoryBlockRow → List ByteSearchRegion
unfolding starts_first sort_by search_loop
search_regions pattern_len window_lo window_hi blocks =
    search_loop pattern_len window_lo window_hi none (sort_by starts_first blocks)
