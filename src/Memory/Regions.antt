-- ===== src/Memory/Regions.antt =====
-- `build_regions`: the blocks of a window, clipped and freed of overlaps, and the stretches that only
-- listed items cover. A vector's `back()` is an argument of the loop that appends to it.
pub mod Blocks
pub mod Spans
pub mod Gaps
pub mod Cover
use ghidrasql.Prelude.{
  ℕ, ℤ, pos, ◌+ℤ◌, ◌-ℤ◌, ltb_ℤ, leb_ℤ, eqb_ℤ, max_ℤ, min_ℤ, Bool, true, false, ◌||◌, Option, none,
  some, List, [], ◌∷◌, ◌++◌, ◌==◌, if◌then◌else◌, sort_by,
}
use ghidrasql.Model.{MemoryBlockRow}
use ghidrasql.Memory.Words.{int64_max}
use ghidrasql.Memory.Items.{MemAttributionItem}

pub data MemRegionKind : Type 0 where
  block_init block_uninit item_only : MemRegionKind

pub record MemRegion : Type 0 where
  pub start : ℤ
  pub end_incl : ℤ
  pub kind : MemRegionKind

block_before : MemoryBlockRow → MemoryBlockRow → Bool
block_before a b = ltb_ℤ a.start_ea b.start_ea

abbrev pub block_kind : MemoryBlockRow → MemRegionKind
block_kind blk = if blk.is_initialized == 0 then block_uninit else block_init

-- A region from `s` to `e`, unless that is empty.
abbrev pub clipped : MemoryBlockRow → ℤ → ℤ → Option MemRegion
clipped blk s e =
    if ltb_ℤ e s then none else some (record { start = s; end_incl = e; kind = block_kind blk })

-- What one block adds behind a region that ends at `back`.
abbrev pub behind : Option ℤ → MemoryBlockRow → ℤ → ℤ → Option MemRegion
behind none blk s e = clipped blk s e
behind (some back) blk s e =
    if leb_ℤ s back
    then (if eqb_ℤ back int64_max then none else clipped blk (back +ℤ pos 1) e)
    else clipped blk s e

-- One round of the loop over the blocks.
unfoldable pub block_region : ℤ → ℤ → Option ℤ → MemoryBlockRow → Option MemRegion
block_region window_lo window_hi back blk =
    let s = max_ℤ blk.start_ea window_lo in
    let e = min_ℤ (blk.end_ea -ℤ pos 1) window_hi in
    if leb_ℤ blk.end_ea blk.start_ea then none else if ltb_ℤ e s then none else behind back blk s e

unfoldable pub block_loop : ℤ → ℤ → Option ℤ → List MemoryBlockRow → List MemRegion
unfolding block_region
block_loop window_lo window_hi back [] = []
block_loop window_lo window_hi back (blk ∷ blocks) =
    elim (block_region window_lo window_hi back blk) [
      | none ↦ block_loop window_lo window_hi back blocks
      | some r ↦ r ∷ block_loop window_lo window_hi (some r.end_incl) blocks
    ]

pub block_regions : ℤ → ℤ → List MemoryBlockRow → List MemRegion
unfolding block_before sort_by block_loop
block_regions window_lo window_hi blocks =
    block_loop window_lo window_hi none (sort_by block_before blocks)

-- Whether a span that starts at `s` runs on from one that ends at `back`.
abbrev pub joins : ℤ → ℤ → Bool
joins back s = eqb_ℤ back int64_max || leb_ℤ s (back +ℤ pos 1)

-- The loop that merges the spans of the items, with `back()` of `item_spans`.
span_loop : ℤ → ℤ → ℤ → ℤ → List MemAttributionItem → List (ℤ × ℤ)
span_loop window_lo window_hi first last [] = (first, last) ∷ []
span_loop window_lo window_hi first last (item ∷ items) =
    let s = max_ℤ item.start window_lo in
    let e = min_ℤ item.end_incl window_hi in
    let skip = span_loop window_lo window_hi first last items in
    let join = span_loop window_lo window_hi first (max_ℤ last e) items in
    let open_next = (first, last) ∷ span_loop window_lo window_hi s e items in
    if ltb_ℤ e s then skip else if joins last s then join else open_next

-- The same loop while `item_spans` is empty.
unfoldable pub item_spans : ℤ → ℤ → List MemAttributionItem → List (ℤ × ℤ)
unfolding span_loop
item_spans window_lo window_hi [] = []
item_spans window_lo window_hi (item ∷ items) =
    let s = max_ℤ item.start window_lo in
    let e = min_ℤ item.end_incl window_hi in
    let skip = item_spans window_lo window_hi items in
    if ltb_ℤ e s then skip else span_loop window_lo window_hi s e items

abbrev gap : ℤ → ℤ → MemRegion
gap s e = record { start = s; end_incl = e; kind = item_only }

-- The inner loop over the blocks from `bi` on, for one span of items from `cur` to `last`: the regions
-- that it adds and the blocks from the new `bi` on. After `cur = b.end_incl + 1` the next round's
-- `while` passes over `b`.
gap_loop : ℤ → ℤ → List MemRegion → List MemRegion × List MemRegion
gap_loop cur last [] = (gap cur last ∷ [], [])
gap_loop cur last (b ∷ bs) =
    let pass = gap_loop cur last bs in
    let rest = gap_loop (b.end_incl +ℤ pos 1) last bs in
    let front : List MemRegion =
      if ltb_ℤ cur b.start then gap cur (b.start -ℤ pos 1) ∷ [] else [] in
    if ltb_ℤ b.end_incl cur
    then pass
    else if ltb_ℤ last b.start
    then (gap cur last ∷ [], b ∷ bs)
    else if leb_ℤ last b.end_incl
    then (front, b ∷ bs)
    else (front ++ rest.0, rest.1)

unfoldable pub gaps : List (ℤ × ℤ) → List MemRegion → List MemRegion
unfolding gap_loop
gaps [] bs = []
gaps ((first, last) ∷ spans) bs =
    (gap_loop first last bs).0 ++ gaps spans (gap_loop first last bs).1

pub region_before : MemRegion → MemRegion → Bool
region_before a b = ltb_ℤ a.start b.start

pub build_regions : ℤ → ℤ → List MemoryBlockRow → List MemAttributionItem → List MemRegion
unfolding block_regions item_spans gaps region_before sort_by
build_regions window_lo window_hi blocks items =
    let regions = block_regions window_lo window_hi blocks in
    sort_by region_before (regions ++ gaps (item_spans window_lo window_hi items) regions)
