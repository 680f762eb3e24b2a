-- ===== src/Examples/Listing.antt =====
-- The theorems on the items, the regions, the pages and the bytes of a window at concrete inputs.
use ghidrasql.Prelude.{
  suc, true, some, length, All, ℕ, ℤ, pos, leb_ℤ, ◌&&◌, ◌||◌, not, List, [], ◌∷◌, ◌≡◌, refl, arith,
  codes, any, select, Pairwise,
}
use ghidrasql.Model.{MemoryBlockRow, InstructionRow, DataItemRow}
use ghidrasql.Memory.Items.{MemAttributionItem, data_item, build_items, items_intersecting}
use ghidrasql.Memory.Items.Active.{StartsInOrder, items_intersecting_lem}
use ghidrasql.Memory.Regions.{MemRegion, block_init, block_regions, item_spans, gaps, build_regions}
use ghidrasql.Memory.Regions.Blocks.{holds, block_holds, in_window, block_regions-holds}
use ghidrasql.Memory.Regions.Spans.{span_holds, item_holds, item_spans-holds}
use ghidrasql.Memory.Regions.Gaps.{gaps-holds}
use ghidrasql.Memory.Regions.Cover.{build_regions-holds}
use ghidrasql.Memory.Pages.{Page}
use ghidrasql.Memory.Pages.Tiling.{regions_run}
use ghidrasql.Memory.Pages.Whole.{all_pages, pages_run, IsPage, all_pages_lem}

abbrev block : ℕ → ℕ → MemoryBlockRow
block start end = record {
  start_ea = pos start;
  end_ea = pos end;
  name = codes ".text";
  block_class = [];
  perm = 5;
  bitness = 64;
  size = pos end;
  is_read = 1;
  is_write = 0;
  is_exec = 1;
  is_initialized = 1;
}

-- Two blocks that overlap, the later one first.
abbrev two_blocks : List MemoryBlockRow
two_blocks = block 6 20 ∷ block 0 10 ∷ []

abbrev nops : List InstructionRow
nops =
    record {
      address = pos 4;
      mnemonic = codes "nop";
      operands = [];
      disasm = codes "nop";
      size = pos 2;
      bytes = codes "9090";
      func_addr = pos 0;
    }
    ∷ []

abbrev tail_item : List DataItemRow
tail_item =
    record {
      address = pos 18;
      name = codes "tail";
      data_type = codes "dword";
      size = pos 4;
      value_repr = [];
      segment_name = [];
      is_string = 0;
      is_initialized = 1;
    }
    ∷ []

cover_example :
    any (holds (pos 21)) (build_regions (pos 2) (pos 30) two_blocks (build_items nops [] tail_item))
    ≡ ((any (block_holds (pos 21)) two_blocks
          || any (item_holds (pos 21)) (build_items nops [] tail_item))
        && in_window (pos 2) (pos 30) (pos 21))
cover_example =
    build_regions-holds (pos 2) (pos 30) two_blocks nops [] tail_item (pos 21) (omega arith)

blocks_example :
    any (holds (pos 9)) (block_regions (pos 2) (pos 30) two_blocks)
    ≡ (any (block_holds (pos 9)) two_blocks && in_window (pos 2) (pos 30) (pos 9))
blocks_example = block_regions-holds (pos 2) (pos 30) two_blocks (pos 9) (omega arith)

abbrev item : ℕ → ℕ → MemAttributionItem
item start end_incl = record {
  start = pos start;
  end_incl = pos end_incl;
  kind = data_item;
  fallback = [];
}

abbrev two_items : List MemAttributionItem
two_items = item 4 7 ∷ item 8 9 ∷ []

items-InOrder : Pairwise StartsInOrder two_items
items-InOrder = ((omega arith, tt), (tt, tt))

spans_example :
    any (span_holds (pos 8)) (item_spans (pos 2) (pos 30) two_items)
    ≡ (any (item_holds (pos 8)) two_items && in_window (pos 2) (pos 30) (pos 8))
spans_example = item_spans-holds (pos 2) (pos 30) two_items (pos 8) (omega arith) items-InOrder

abbrev one_region : List MemRegion
one_region = record { start = pos 5; end_incl = pos 8; kind = block_init } ∷ []

abbrev one_span : List (ℤ × ℤ)
one_span = (pos 2, pos 10) ∷ []

gaps_example :
    any (holds (pos 9)) (gaps one_span one_region)
    ≡ (any (span_holds (pos 9)) one_span && not (any (holds (pos 9)) one_region))
gaps_example =
    gaps-holds (pos 1) one_span one_region (pos 9) (omega arith, omega arith, tt)
      (refl, omega arith, tt)

page_example :
    items_intersecting (build_items nops [] tail_item) (pos 5) (pos 19)
    ≡ select
        (λ i. leb_ℤ i.start (pos 19) && leb_ℤ (pos 5) i.end_incl)
        (build_items nops [] tail_item)
page_example = items_intersecting_lem nops [] tail_item (pos 5) (pos 19)

-- Two regions that are walked down from an address inside the first one.
abbrev low_region : MemRegion
low_region = record { start = pos 1; end_incl = pos 2; kind = block_init }

abbrev walked : List MemRegion
walked = record { start = pos 5; end_incl = pos 8; kind = block_init } ∷ low_region ∷ []

abbrev fuel : ℕ
fuel = suc (length (regions_run true (some (pos 6)) walked))

pages_example :
    (pages : List Page) × (all_pages true fuel (record { regions = walked; cursor = some (pos 6) })
      ≡ some pages)
    × (pages_run true pages ≡ regions_run true (some (pos 6)) walked)
    × All IsPage pages
pages_example =
    all_pages_lem true fuel walked (some (pos 6))
      (
        (omega arith, omega arith),
        (omega arith, omega arith),
        omega arith,
        omega arith,
        ((omega arith, omega arith), (omega arith, omega arith), omega arith, omega arith, tt),
      )
      (omega arith)
