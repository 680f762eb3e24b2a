-- ===== src/Memory/Pages.antt =====
-- The pages in which the memory byte stream walks over its regions: `advance_cursor_range` of
-- src/lib/src/entities_detail.cpp. `regions` are those from `region_idx_` on, in the order of the walk,
-- and `cursor_` is `none` where `cursor_valid_` is false.
pub mod Runs
pub mod Tiling
pub mod Whole
use ghidrasql.Prelude.{
  ℕ, ◌+◌, ◌-◌, ◌*◌, ◌%◌, ◌^◌, min, ℤ, eqb_ℤ, Bool, Option, none, some, List, [], ◌∷◌, reverse,
  if◌then◌else◌,
}
use ghidrasql.Memory.Words.{u64_of, i64_of, addr_distance, addr_add}
use ghidrasql.Memory.Regions.{MemRegion, MemRegionKind}

abbrev pub memory_byte_page : ℕ
memory_byte_page = 32 * 1024

-- The range that is to be derived next.
pub record Page : Type 0 where
  pub lo : ℤ
  pub hi_incl : ℤ
  pub kind : MemRegionKind

pub record Walk : Type 0 where
  pub regions : List MemRegion
  pub cursor : Option ℤ

-- The walk that starts over the regions of a window.
abbrev pub new_walk : Bool → List MemRegion → Walk
new_walk descending regions = record {
  regions = if descending then reverse regions else regions;
  cursor = none;
}

-- The difference that is taken in 64 bits.
unfoldable pub addr_sub : ℤ → ℕ → ℤ
unfolding u64_of i64_of
addr_sub base delta = i64_of ((u64_of base + 2 ^ 64 - delta) % 2 ^ 64)

abbrev pub cursor_or : ℤ → Option ℤ → ℤ
cursor_or start none = start
cursor_or start (some c) = c

-- The branch of an ascending walk, at a region and in front of those behind it.
unfoldable pub advance_up : MemRegion → List MemRegion → ℤ → Page × Walk
unfolding addr_distance addr_add
advance_up rg later cursor =
    let step = min (addr_distance cursor rg.end_incl) (memory_byte_page - 1) in
    let hi_incl = addr_add cursor step in
    (
      record { lo = cursor; hi_incl = hi_incl; kind = rg.kind },
      if eqb_ℤ hi_incl rg.end_incl
          then record { regions = later; cursor = none }
          else record { regions = rg ∷ later; cursor = some (addr_add hi_incl 1) },
    )

-- The branch of a descending walk.
unfoldable pub advance_down : MemRegion → List MemRegion → ℤ → Page × Walk
unfolding addr_distance addr_sub
advance_down rg later cursor =
    let step = min (addr_distance rg.start cursor) (memory_byte_page - 1) in
    let lo = addr_sub cursor step in
    (
      record { lo = lo; hi_incl = cursor; kind = rg.kind },
      if eqb_ℤ lo rg.start
          then record { regions = later; cursor = none }
          else record { regions = rg ∷ later; cursor = some (addr_sub lo 1) },
    )

unfoldable pub advance_regions : Bool → List MemRegion → Option ℤ → Option (Page × Walk)
unfolding advance_up advance_down
advance_regions descending [] cursor = none
advance_regions descending (rg ∷ later) cursor = some (
    if descending
    then advance_down rg later (cursor_or rg.end_incl cursor)
    else advance_up rg later (cursor_or rg.start cursor))

-- `none` where every region is exhausted.
unfoldable pub advance_cursor_range : Bool → Walk → Option (Page × Walk)
unfolding advance_regions
advance_cursor_range descending walk = advance_regions descending walk.regions walk.cursor
