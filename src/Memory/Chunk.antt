-- ===== src/Memory/Chunk.antt =====
-- The rows of one page of the memory byte stream: `build_chunk`, `normalize_memory_byte_row` and
-- `memory_ascii_from_value` of src/lib/src/entities_detail.cpp. `values` and `have` are one list, with
-- `none` where `have` is 0. The reads of the source are an argument, with `none` for a failure.
pub mod Winner
use ghidrasql.Prelude.{
  ℕ, zero, suc, ◌+◌, ◌-◌, ◌%◌, ◌==◌, min, ltb, leb, ℤ, pos, ltb_ℤ, leb_ℤ, eqb_ℤ, max_ℤ, min_ℤ, Bool,
  true, false, not, ◌&&◌, ◌||◌, Option, none, some, List, [], ◌∷◌, reverse, if◌then◌else◌, Bytes,
  codes, is_empty, length, take, drop, replicate, get_or, get_elem?, any,
}
use ghidrasql.Model.{MemoryByteRow}
use ghidrasql.Memory.Words.{u64_of, addr_distance, addr_add}
use ghidrasql.Memory.Items.{
  MemItemKind, instruction, string_item, data_item, priority, MemAttributionItem,
  items_intersecting,
}
use ghidrasql.Memory.Regions.{MemRegionKind, block_init, block_uninit, item_only}
use ghidrasql.Ranges.{
  FunctionRange, SegmentRange, range_function_for_address, segment_name_for_address,
}

-- `value & 0xFF`
unfoldable pub low_byte : ℤ → ℕ
unfolding u64_of
low_byte value = u64_of value % 256

unfoldable pub memory_ascii_from_value : ℤ → Bytes
unfolding low_byte
memory_ascii_from_value value =
    let ch = low_byte value in if leb 32 ch && leb ch 126 then ch ∷ [] else codes "."

-- The two defaults that `normalize_memory_byte_row` sets first.
abbrev pub with_item : MemoryByteRow → MemoryByteRow
with_item row = record row {
  item_addr = if eqb_ℤ row.item_addr (pos 0) then row.address else row.item_addr;
  item_offset = if ltb_ℤ row.item_offset (pos 0) then pos 0 else row.item_offset;
}

unfoldable pub normalize_memory_byte_row : MemoryByteRow → MemoryByteRow
unfolding low_byte memory_ascii_from_value
normalize_memory_byte_row row =
    if row.is_initialized == 0
    then record (with_item row) { value = pos 0; is_printable = 0; ascii = [] }
    else record (with_item row) {
      value = pos (low_byte row.value);
      is_printable = if leb 32 (low_byte row.value) && leb (low_byte row.value) 126 then 1 else 0;
      ascii = memory_ascii_from_value (pos (low_byte row.value));
    }

-- The bytes of a read, written over what there is.
unfoldable pub overlay : List ℕ → List (Option ℕ) → List (Option ℕ)
overlay [] cells = cells
overlay (b ∷ bytes) [] = []
overlay (b ∷ bytes) (c ∷ cells) = some b ∷ overlay bytes cells

-- The same, `off` bytes further.
unfoldable pub overlay_at : ℕ → List ℕ → List (Option ℕ) → List (Option ℕ)
unfolding overlay
overlay_at zero bytes cells = overlay bytes cells
overlay_at (suc off) bytes [] = []
overlay_at (suc off) bytes (c ∷ cells) = c ∷ overlay_at off bytes cells

abbrev pub is_missing : Option ℕ → Bool
is_missing none = true
is_missing (some b) = false

abbrev pub is_instruction : MemItemKind → Bool
is_instruction instruction = true
is_instruction string_item = false
is_instruction data_item = false

abbrev pub write_read : ℕ → ℕ → Option (List ℕ) → List (Option ℕ) → List (Option ℕ)
write_read off len none cells = cells
write_read off len (some bytes) cells = overlay_at off (take len bytes) cells

-- The loop that reads again what is missing of a string or a data item.
unfoldable pub retry_items :
    (ℤ → ℕ → Option (List ℕ)) → ℤ → ℤ → List MemAttributionItem → List (Option ℕ) → List (Option ℕ)
unfolding overlay_at addr_distance
retry_items read lo hi_incl [] cells = cells
retry_items read lo hi_incl (item ∷ active) cells =
    let sub_lo = max_ℤ item.start lo in
    let sub_hi = min_ℤ item.end_incl hi_incl in
    let off = addr_distance lo sub_lo in
    let sub_len = addr_distance sub_lo sub_hi + 1 in
    let retried =
      if is_instruction item.kind || ltb_ℤ sub_hi sub_lo
      then cells
      else if not (any is_missing (take sub_len (drop off cells)))
      then cells
      else write_read off sub_len (read sub_lo sub_len) cells in
    retry_items read lo hi_incl active retried

abbrev pub is_uninit : MemRegionKind → Bool
is_uninit block_init = false
is_uninit block_uninit = true
is_uninit item_only = false

unfoldable pub page_cells :
    (ℤ → ℕ → Option (List ℕ)) → MemRegionKind → List MemAttributionItem → ℤ → ℤ → List (Option ℕ)
unfolding retry_items addr_distance
page_cells read kind active lo hi_incl =
    let len = addr_distance lo hi_incl + 1 in
    if is_uninit kind
    then replicate len none
    else retry_items read lo hi_incl active (write_read 0 len (read lo len) (replicate len none))

abbrev pub covers_addr : ℤ → MemAttributionItem → Bool
covers_addr addr item = leb_ℤ item.start addr && leb_ℤ addr item.end_incl

abbrev pub better_kind : MemAttributionItem → Option MemAttributionItem → Bool
better_kind candidate none = true
better_kind candidate (some item) = ltb (priority candidate.kind) (priority item.kind)

-- The loop over the candidates, with `item`.
unfoldable pub winner :
    ℤ → List MemAttributionItem → Option MemAttributionItem → Option MemAttributionItem
winner addr [] item = item
winner addr (candidate ∷ active) item =
    winner addr active
      (if covers_addr addr candidate && better_kind candidate item then some candidate else item)

unfoldable pub mem_item_kind_name : MemItemKind → Bytes
mem_item_kind_name instruction = codes "instruction"
mem_item_kind_name string_item = codes "string"
mem_item_kind_name data_item = codes "data"

-- `value`, with `none` for -1.
unfoldable pub byte_value : Option ℕ → Option MemAttributionItem → ℤ → Option ℕ
unfolding addr_distance
byte_value (some b) item addr = some b
byte_value none none addr = none
byte_value none (some item) addr = get_elem? item.fallback (addr_distance item.start addr)

-- The value and `is_initialized` of a byte that is surfaced.
unfoldable pub surfaced : MemRegionKind → Option ℕ → Option MemAttributionItem → ℤ → Option (ℤ × ℕ)
unfolding byte_value
surfaced block_uninit cell item addr = some (pos 0, 0)
surfaced block_init cell item addr = elim (byte_value cell item addr) [
  | none ↦ none
  | some v ↦ some (pos v, 1)
]
surfaced item_only cell item addr = elim (byte_value cell item addr) [
  | none ↦ none
  | some v ↦ some (pos v, 1)
]

-- `source_kind`, `item_addr` and `item_offset`.
unfoldable pub attribution : MemRegionKind → Option MemAttributionItem → ℤ → Option (Bytes × ℤ × ℤ)
unfolding mem_item_kind_name addr_distance
attribution kind (some item) addr =
    some (mem_item_kind_name item.kind, item.start, pos (addr_distance item.start addr))
attribution block_init none addr = some (codes "raw", addr, pos 0)
attribution block_uninit none addr = some (codes "uninitialized", addr, pos 0)
attribution item_only none addr = none

-- The ranges that name the function and the segment of an address.
pub record Names : Type 0 where
  pub function_ranges : List FunctionRange
  pub segment_ranges : List SegmentRange

abbrev pub byte_row : Names → ℤ → ℤ × ℕ → Bytes × ℤ × ℤ → MemoryByteRow
byte_row names addr value item = record {
  address = addr;
  value = value.0;
  segment_name = segment_name_for_address names.segment_ranges addr;
  func_addr = range_function_for_address names.function_ranges addr;
  source_kind = item.0;
  item_addr = item.1;
  item_offset = item.2;
  is_printable = 0;
  ascii = [];
  is_initialized = value.1;
}

-- One round of the loop over the page.
unfoldable pub chunk_row :
    Names → MemRegionKind → List MemAttributionItem → ℤ → Option ℕ → Option MemoryByteRow
unfolding winner surfaced attribution normalize_memory_byte_row
chunk_row names kind active addr cell =
    let item = winner addr active none in
    elim (surfaced kind cell item addr) [
      | none ↦ none
      | some value ↦ elim (attribution kind item addr) [
        | none ↦ none
        | some parts ↦ some (normalize_memory_byte_row (byte_row names addr value parts))
      ]
    ]

unfoldable pub chunk_rows :
    Names → MemRegionKind → List MemAttributionItem → ℤ → ℕ → List (Option ℕ) → List MemoryByteRow
unfolding chunk_row addr_add
chunk_rows names kind active lo i [] = []
chunk_rows names kind active lo i (cell ∷ cells) =
    let rest = chunk_rows names kind active lo (suc i) cells in
    elim (chunk_row names kind active (addr_add lo i) cell) [ none ↦ rest | some row ↦ row ∷ rest ]

unfoldable pub build_chunk :
    (ℤ → ℕ → Option (List ℕ))
    → Names
    → List MemAttributionItem
    → Bool
    → ℤ
    → ℤ
    → MemRegionKind
    → List MemoryByteRow
unfolding items_intersecting page_cells chunk_rows
build_chunk read names items descending lo hi_incl kind =
    let active = items_intersecting items lo hi_incl in
    let rows = chunk_rows names kind active lo 0 (page_cells read kind active lo hi_incl) in
    if descending then reverse rows else rows
