-- ===== src/Memory/Items.antt =====
-- The items of the listing that attribute bytes (`build_items`), and the search for those that meet a
-- page (`items_intersecting`).
pub mod Active
use ghidrasql.Prelude.{
  ℕ, zero, suc, ◌+◌, ◌*◌, min, ℤ, pos, negsuc, ltb_ℤ, leb_ℤ, eqb_ℤ, max_ℤ, Bool, true, false, not,
  ◌&&◌, ◌||◌, Option, none, some, List, [], ◌∷◌, ◌++◌, map, reverse, ltb, leb, ◌==◌, if◌then◌else◌,
  Bytes, is_space, length, take, sort_by,
}
use ghidrasql.Model.{InstructionRow, StringRow, DataItemRow}
use ghidrasql.Memory.Words.{span_end_incl, int64_min}
use ghidrasql.Memory.Spans.{hex_bytes, instruction_byte_span, string_byte_span, data_item_byte_span}

-- Attribution priority: the earlier constructor wins.
pub data MemItemKind : Type 0 where
  instruction string_item data_item : MemItemKind

abbrev pub priority : MemItemKind → ℕ
priority instruction = 0
priority string_item = 1
priority data_item = 2

pub record MemAttributionItem : Type 0 where
  pub start : ℤ
  pub end_incl : ℤ
  pub kind : MemItemKind
  pub fallback : List ℕ

-- The two loops of `trim_copy`.
unfoldable pub trim_front : Bytes → Bytes
unfolding is_space
trim_front [] = []
trim_front (c ∷ s) = if is_space c then trim_front s else c ∷ s

unfoldable pub trim_copy : Bytes → Bytes
unfolding trim_front
trim_copy input = reverse (trim_front (reverse (trim_front input)))

pub instruction_item : InstructionRow → MemAttributionItem
instruction_item insn = record {
  start = insn.address;
  end_incl = span_end_incl insn.address (instruction_byte_span insn);
  kind = instruction;
  fallback = hex_bytes (trim_copy insn.bytes);
}

-- The content, cut to the span, and one NUL where the span is longer.
string_fallback : Bytes → ℤ → List ℕ
string_fallback content (negsuc n) = []
string_fallback content (pos span) =
    let bytes = take (min (length content) span) content in
    if ltb (length bytes) span then bytes ++ 0 ∷ [] else bytes

pub string_row_item : StringRow → MemAttributionItem
unfolding string_fallback
string_row_item s = record {
  start = s.address;
  end_incl = span_end_incl s.address (string_byte_span s);
  kind = string_item;
  fallback = string_fallback s.content (string_byte_span s);
}

-- Items with no size claim no bytes.
pub data_items_of : List DataItemRow → List MemAttributionItem
data_items_of [] = []
data_items_of (di ∷ rows) =
    let item : MemAttributionItem = record {
      start = di.address;
      end_incl = span_end_incl di.address (data_item_byte_span di);
      kind = data_item;
      fallback = [];
    } in
    if leb_ℤ di.size (pos 0) then data_items_of rows else item ∷ data_items_of rows

pub item_before : MemAttributionItem → MemAttributionItem → Bool
item_before a b =
    if not (eqb_ℤ a.start b.start)
    then ltb_ℤ a.start b.start
    else ltb (priority a.kind) (priority b.kind)

-- The items before they are sorted.
unfoldable pub listed_items :
    List InstructionRow → List StringRow → List DataItemRow → List MemAttributionItem
listed_items instructions strings data_items =
    map instruction_item instructions ++ (map string_row_item strings ++ data_items_of data_items)

pub build_items : List InstructionRow → List StringRow → List DataItemRow → List MemAttributionItem
unfolding item_before sort_by listed_items
build_items instructions strings data_items =
    sort_by item_before (listed_items instructions strings data_items)

-- `std::upper_bound` by the start: how many items start at or before the address.
unfoldable pub starts_until : ℤ → List MemAttributionItem → ℕ
starts_until hi [] = 0
starts_until hi (item ∷ items) = if ltb_ℤ hi item.start then 0 else suc (starts_until hi items)

-- The loop of `items_intersecting`, which walks the items (with their running maxima) from the back.
unfoldable pub back_walk : ℤ → List (MemAttributionItem × ℤ) → List MemAttributionItem
back_walk lo [] = []
back_walk lo ((item, reach) ∷ rest) =
    let more = back_walk lo rest in
    if ltb_ℤ reach lo then [] else if leb_ℤ lo item.end_incl then item ∷ more else more

-- The items with the running maximum of their ends: `prefix_max_end_`.
unfoldable pub with_reach : ℤ → List MemAttributionItem → List (MemAttributionItem × ℤ)
with_reach running [] = []
with_reach running (item ∷ items) =
    (item, max_ℤ running item.end_incl) ∷ with_reach (max_ℤ running item.end_incl) items

unfoldable pub items_intersecting : List MemAttributionItem → ℤ → ℤ → List MemAttributionItem
unfolding with_reach starts_until back_walk
items_intersecting items lo hi_incl =
    reverse
      (back_walk lo (reverse (take (starts_until hi_incl items) (with_reach int64_min items))))
