-- ===== src/ByteSearch/Scan.antt =====
-- The scan of `byte_search` over pages of bytes: `ByteSearchGenerator`. `regions_` is kept from
-- `region_index_` on, and `cursor_` is `none` where `cursor_valid_` is false. The loops run on fuel.
pub mod Enough
pub mod Served
pub mod Steps
pub mod Loads
pub mod Refines
pub mod Drain
use ghidrasql.Prelude.{
  ℕ, zero, suc, ◌+◌, ◌-◌, ◌*◌, ◌%◌, ◌^◌, min, ◌==◌, ℤ, pos, ltb_ℤ, Bool, true, false, not, ◌&&◌,
  ◌||◌, Option, none, some, List, [], ◌∷◌, if◌then◌else◌, ltb, leb, length, is_empty, Bytes, codes,
  take, drop,
}
use ghidrasql.Model.{MemoryBlockRow}
use ghidrasql.ByteSearch.Pattern.{ByteSearchPatternByte, byte_matches, byte_search_hex}
use ghidrasql.ByteSearch.Regions.{
  byte_search_addr_distance, byte_search_addr_add, ByteSearchRegion, Search, page_candidates,
  search_regions,
}
use ghidrasql.Tables.Instructions.{report_write_error}

pub record ByteSearchRow : Type 0 where
  pub address : ℤ
  pub matched_bytes : List ℕ
  pub matched_hex : Bytes

-- What a read leaves: its flag, the bytes, and whether an error message is set behind it.
pub record ByteRead : Type 0 where
  pub ok : Bool
  pub bytes : List ℕ
  pub reported : Bool

-- The methods of a source that the scan calls; `blocks_reported` tells whether the read of the blocks
-- sets an error message.
pub record ByteSource : Type 0 where
  pub read_memory_blocks : Bool × List MemoryBlockRow
  pub blocks_reported : Bool
  pub read_bytes : ℤ → ℕ → ByteRead
  pub last_error : Bytes

pub record ByteSearchState : Type 0 where
  pub empty : Bool
  pub initialized : Bool
  pub emitted : ℕ
  pub regions : List ByteSearchRegion
  pub cursor : Option ℤ
  pub page : List ℕ
  pub page_start : ℤ
  pub page_candidate_index : ℕ
  pub page_candidate_count : ℕ
  pub reported : Option Bytes

abbrev pub new_search : Search → ByteSearchState
new_search search = record {
  empty = search.empty;
  initialized = false;
  emitted = 0;
  regions = [];
  cursor = none;
  page = [];
  page_start = pos 0;
  page_candidate_index = 0;
  page_candidate_count = 0;
  reported = none;
}

unfoldable pub init : ByteSource → Search → ByteSearchState → ByteSearchState
unfolding search_regions report_write_error
init source search st =
    let found =
      search_regions (length search.pattern) search.window_lo search.window_hi
        source.read_memory_blocks.1 in
    if st.empty || is_empty search.pattern || ltb_ℤ search.window_hi search.window_lo
    then record st { empty = true }
    else if not source.read_memory_blocks.0
    then record st {
      empty = true;
      reported =
          if source.blocks_reported
          then st.reported
          else some (
              report_write_error source.last_error
                (codes "byte_search: failed to read memory blocks"));
    }
    else record st { regions = found; empty = is_empty found }

-- Whether the bytes at the front of a list match a pattern. A list that is too short does not occur.
unfoldable pub front_matches : List ByteSearchPatternByte → List ℕ → Bool
unfolding byte_matches
front_matches [] page = true
front_matches (p ∷ pattern) [] = false
front_matches (p ∷ pattern) (b ∷ page) = byte_matches p b && front_matches pattern page

-- The inner loop of `next`, over `n` candidates: `i` is the first of them, and `page` starts at it.
unfoldable pub find_candidate : List ByteSearchPatternByte → List ℕ → ℕ → ℕ → Option ℕ
unfolding front_matches
find_candidate pattern page i zero = none
find_candidate pattern page i (suc n) =
    let rest = find_candidate pattern (drop 1 page) (suc i) n in
    if front_matches pattern page then some i else rest

-- `current_`, for the candidate `i` of the page.
unfoldable pub match_row : List ByteSearchPatternByte → ByteSearchState → ℕ → ByteSearchRow
unfolding byte_search_addr_add byte_search_hex
match_row pattern st i = record {
  address = byte_search_addr_add st.page_start i;
  matched_bytes = take (length pattern) (drop i st.page);
  matched_hex = byte_search_hex (take (length pattern) (drop i st.page));
}

-- How many candidates a region has from an address on, in 64 bits.
unfoldable pub remaining_candidates : ℤ → ByteSearchRegion → ℕ
unfolding byte_search_addr_distance
remaining_candidates cursor region = (byte_search_addr_distance cursor region.end_incl + 1) % 2 ^ 64

unfoldable pub advance_candidates :
    ℕ → ℤ → ByteSearchRegion → List ByteSearchRegion → ByteSearchState → ByteSearchState
unfolding remaining_candidates byte_search_addr_add
advance_candidates count cursor region later st =
    if leb (remaining_candidates cursor region) count
    then record st { regions = later; cursor = none }
    else record st { cursor = some (byte_search_addr_add cursor count) }

-- `page_candidate_count_` behind a read.
unfoldable pub served_count : ℕ → ℕ → ByteRead → ℕ
served_count pattern_len requested read =
    if read.ok && leb pattern_len (length read.bytes)
    then min requested (length read.bytes - pattern_len + 1)
    else 0

-- How a round of the loop of `load_next_page` ends: it returns false, returns true, or goes on.
pub data Load : Type 0 where
  stopped loaded skipped : ByteSearchState → Load

-- `cursor_`, set to the start of the region where it is not valid.
abbrev pub cursor_at : ℤ → Option ℤ → ℤ
cursor_at start none = start
cursor_at start (some c) = c

-- A round at the region `region`, where `later` are those behind it.
unfoldable pub load_round :
    ByteSource → ℕ → ByteSearchRegion → List ByteSearchRegion → ByteSearchState → Load
unfolding advance_candidates served_count remaining_candidates
load_round source pattern_len region later st =
    let cursor = cursor_at region.start st.cursor in
    let requested = min (remaining_candidates cursor region) page_candidates in
    let read = source.read_bytes cursor (requested + pattern_len - 1) in
    let count = served_count pattern_len requested read in
    let consumed = if count == 0 then requested else count in
    let filled : ByteSearchState = record st {
      page = read.bytes;
      page_start = cursor;
      cursor = some cursor;
      page_candidate_count = count;
    } in
    if not read.ok && read.reported
    then stopped (record filled { empty = true; page_candidate_count = 0 })
    else if count == 0
    then skipped (advance_candidates consumed cursor region later filled)
    else loaded (advance_candidates consumed cursor region later filled)

-- `none` where the fuel runs out.
unfoldable pub load_loop : ByteSource → ℕ → ℕ → ByteSearchState → Option (Bool × ByteSearchState)
unfolding load_round
load_loop source pattern_len zero st = none
load_loop source pattern_len (suc fuel) st = elim st.regions [
  | [] ↦ some (false, st)
  | region ∷ later ↦ elim (load_round source pattern_len region later st) [
    | stopped s ↦ some (false, s)
    | loaded s ↦ some (true, s)
    | skipped s ↦ load_loop source pattern_len fuel s
  ]
]

unfoldable pub load_next_page :
    ByteSource → ℕ → ℕ → ByteSearchState → Option (Bool × ByteSearchState)
unfolding load_loop
load_next_page source pattern_len fuel st =
    load_loop source pattern_len fuel
      (record st { page = []; page_candidate_index = 0; page_candidate_count = 0 })

-- The outer loop of `next`: the row that is found, if there is one.
unfoldable pub next_loop :
    ByteSource
    → List ByteSearchPatternByte
    → ℕ
    → ByteSearchState
    → Option (Option ByteSearchRow × ByteSearchState)
unfolding find_candidate match_row load_next_page
next_loop source pattern zero st = none
next_loop source pattern (suc fuel) st =
    elim (find_candidate pattern (drop st.page_candidate_index st.page) st.page_candidate_index
      (st.page_candidate_count - st.page_candidate_index)) [
        | some i ↦ some (
          some (match_row pattern st i),
          record st { emitted = suc st.emitted; page_candidate_index = suc i },
        )
        | none ↦ elim (load_next_page source (length pattern) (suc fuel) st) [
          | none ↦ none
          | some (more, s) ↦
              let rest = next_loop source pattern fuel s in if more then rest else some (none, s)
        ]
      ]

unfoldable pub next :
    ByteSource → Search → ℕ → ByteSearchState → Option (Option ByteSearchRow × ByteSearchState)
unfolding init next_loop
next source search fuel st =
    let s : ByteSearchState =
      if st.initialized then st else init source search (record st { initialized = true }) in
    if s.empty || (not (search.max_results == 0) && leb search.max_results s.emitted)
    then some (none, s)
    else next_loop source search.pattern fuel s

-- A scan read to its end, or to `rounds` rows.
unfoldable pub drain : ByteSource → Search → ℕ → ℕ → ByteSearchState → Option (List ByteSearchRow)
unfolding next
drain source search fuel zero st = none
drain source search fuel (suc rounds) st = elim (next source search fuel st) [
  | none ↦ none
  | some (none, s) ↦ some []
  | some (some row, s) ↦ elim (drain source search fuel rounds s) [
    | none ↦ none
    | some rows ↦ some (row ∷ rows)
  ]
]
