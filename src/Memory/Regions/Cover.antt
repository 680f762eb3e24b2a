-- ===== src/Memory/Regions/Cover.antt =====
-- What the regions of a window hold, all together.
use ghidrasql.Prelude.{
  ℤ, pos, ◌-ℤ◌, -ℤ_parts, ◌≤ℤ◌, ◌<ℤ◌, Bool, not, ◌&&◌, ◌||◌, List, ◌++◌, ◌≡◌, ap, ◌∙◌, arith, any,
  any-append, any-sort_by,
}
use ghidrasql.Model.{MemoryBlockRow, InstructionRow, StringRow, DataItemRow}
use ghidrasql.Memory.Words.{int64_max}
use ghidrasql.Memory.Items.{build_items}
use ghidrasql.Memory.Items.Active.{build_items-StartsInOrder}
use ghidrasql.Memory.Regions.{build_regions, block_regions, item_spans, gaps, region_before}
use ghidrasql.Memory.Regions.Blocks.{
  holds, block_holds, in_window, block_regions-holds, block_regions-IsLadder,
}
use ghidrasql.Memory.Regions.Spans.{item_holds, item_spans-holds, item_spans-IsSpanLadder}
use ghidrasql.Memory.Regions.Gaps.{gaps-holds}

below : (x : ℤ) → (x -ℤ pos 1) <ℤ x
below x = let prev = -ℤ_parts x (pos 1) in ground arith

both : (b i w : Bool) → ((b && w) || ((i && w) && not (b && w))) ≡ ((b || i) && w)
both b i w = ground arith

-- For blocks and items in any order, and a window up to the last address there is: the regions of
-- the window hold an address exactly when the address lies in the window and in some block or in
-- some item.
pub build_regions-holds :
    (window_lo window_hi : ℤ) (blocks : List MemoryBlockRow) (instructions : List InstructionRow)
    (strings : List StringRow) (data_items : List DataItemRow) (a : ℤ)
    → window_hi ≤ℤ int64_max
    → any
        (holds a)
        (build_regions window_lo window_hi blocks (build_items instructions strings data_items))
      ≡ ((any (block_holds a) blocks
            || any (item_holds a) (build_items instructions strings data_items))
          && in_window window_lo window_hi a)
unfolding build_regions
build_regions-holds window_lo window_hi blocks instructions strings data_items a h =
    let items = build_items instructions strings data_items in
    let order = build_items-StartsInOrder instructions strings data_items in
    let regions = block_regions window_lo window_hi blocks in
    let spans = item_spans window_lo window_hi items in
    any-sort_by region_before (holds a) (regions ++ gaps spans regions)
    ∙ any-append (holds a) regions (gaps spans regions)
    ∙ ap (λ t. any (holds a) regions || t)
        (gaps-holds (window_lo -ℤ pos 1) spans regions a
          (item_spans-IsSpanLadder window_lo window_hi (window_lo -ℤ pos 1) items (below window_lo))
          (block_regions-IsLadder window_lo window_hi blocks))
    ∙ (rw
        (
          block_regions-holds window_lo window_hi blocks a h,
          item_spans-holds window_lo window_hi items a h order,
        )
        (both (any (block_holds a) blocks) (any (item_holds a) items)
          (in_window window_lo window_hi a)))
