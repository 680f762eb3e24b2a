-- ===== src/Examples/Searches.antt =====
-- The theorems on byte searches at concrete inputs.
use ghidrasql.Prelude.{
  ℕ, suc, ℤ, pos, negsuc, eqb_ℤ, true, false, ◌&&◌, some, none, List, [], ◌∷◌, ◌≡◌, refl, arith,
  codes, map, any, length, inl,
}
use ghidrasql.Model.{MemoryBlockRow}
use ghidrasql.Memory.Regions.Blocks.{in_window}
use ghidrasql.ByteSearch.Pattern.{byte_search_parse, byte_search_hex, without_blanks}
use ghidrasql.ByteSearch.Pattern.Print.{
  nibble, capital, pattern_of, exact_byte, byte_search_parse-refused,
  byte_search_parse-byte_search_hex,
}
use ghidrasql.ByteSearch.Regions.{Search, search_regions}
use ghidrasql.ByteSearch.Regions.Candidates.{holds_region}
use ghidrasql.ByteSearch.Regions.Exact.{fits, search_regions-holds}
use ghidrasql.ByteSearch.Scan.{
  ByteSource, ByteSearchRow, ByteSearchState, new_search, next, next_loop, drain,
}
use ghidrasql.ByteSearch.Scan.Enough.{work, work_left, opened, Returns, next-Returns}
use ghidrasql.ByteSearch.Scan.Served.{served, matches_at}
use ghidrasql.ByteSearch.Scan.Steps.{region_hits}
use ghidrasql.ByteSearch.Scan.Refines.{Step, next_loop-Step}
use ghidrasql.ByteSearch.Scan.Drain.{regions_of}
use ghidrasql.ByteSearch.Complete.{drain_complete}

-- "8B ZZ" leaves the byte 0x8b.
refused_example :
    byte_search_parse (codes "8B ZZ")
    ≡ (false, pattern_of ((nibble 8 (omega arith), capital 11 (omega arith) (omega arith)) ∷ []))
refused_example =
    byte_search_parse-refused (codes "8B ZZ")
      ((nibble 8 (omega arith), capital 11 (omega arith) (omega arith)) ∷ []) b'Z' b'Z' []
      (unfold without_blanks in refl) (inl refl) refl

printed_example :
    byte_search_parse (byte_search_hex (72 ∷ 255 ∷ [])) ≡ (true, map exact_byte (72 ∷ 255 ∷ []))
printed_example = byte_search_parse-byte_search_hex 72 (255 ∷ []) (omega arith, (omega arith, tt))

abbrev block_from : ℕ → ℕ → MemoryBlockRow
block_from start end = record {
  start_ea = pos start;
  end_ea = pos end;
  name = codes "block";
  block_class = [];
  perm = 5;
  bitness = 64;
  size = pos end;
  is_read = 1;
  is_write = 0;
  is_exec = 1;
  is_initialized = 1;
}

abbrev blocks : List MemoryBlockRow
blocks = block_from 6 20 ∷ block_from 0 10 ∷ []

-- A memory that holds at each address its number.
abbrev numbers : ℤ → ℕ
numbers (pos n) = n
numbers (negsuc n) = 0

abbrev memory_source : ByteSource
memory_source = record {
  read_memory_blocks = (true, blocks);
  blocks_reported = false;
  read_bytes = λ a n. record { ok = true; bytes = served numbers a n; reported = false };
  last_error = [];
}

abbrev search : Search
search = record {
  pattern = exact_byte 7 ∷ exact_byte 8 ∷ [];
  window_lo = pos 2;
  window_hi = pos 50;
  empty = false;
  max_results = 0;
}

candidates_example :
    any (holds_region (pos 7)) (search_regions 2 (pos 2) (pos 50) blocks)
    ≡ (any (fits 2 (pos 7)) blocks && in_window (pos 2) (pos 50) (pos 7))
candidates_example =
    search_regions-holds 2 (pos 2) (pos 50) blocks (pos 7) (omega arith) (omega arith) (
      ((omega arith, omega arith), (omega arith, omega arith)),
      (((omega arith, omega arith), (omega arith, omega arith)), tt),
    )

abbrev first_fuel : ℕ
first_fuel = suc (work_left (opened memory_source search (new_search search)))

call_example : Returns (next memory_source search first_fuel (new_search search))
call_example = next-Returns memory_source search first_fuel (new_search search) (omega arith)

abbrev begun : ByteSearchState
begun = record (new_search search) {
  initialized = true;
  regions = record { start = pos 2; end_incl = pos 18 } ∷ [];
}

abbrev step_fuel : ℕ
step_fuel = suc (work_left begun)

step_example :
    Step numbers memory_source
      (λ a n. refl)
      search.pattern
      (omega arith)
      begun
      (next_loop memory_source search.pattern step_fuel begun)
step_example =
    next_loop-Step numbers memory_source (λ a n. refl) search.pattern (omega arith) step_fuel begun
      (omega arith, inl refl, ((omega arith, omega arith), omega arith, omega arith, tt))
      (omega arith)

abbrev full_fuel : ℕ
full_fuel = suc (work none (regions_of memory_source search))

abbrev full_rounds : ℕ
full_rounds =
    suc (length (region_hits numbers search.pattern none (regions_of memory_source search)))

complete_example :
    (found : List ByteSearchRow) × (drain memory_source search full_fuel full_rounds
        (new_search search)
      ≡ some found)
    × (any (λ row. eqb_ℤ (pos 7) row.address) found ≡ (
        (any (fits 2 (pos 7)) blocks && in_window (pos 2) (pos 50) (pos 7))
        && matches_at numbers search.pattern (pos 7)))
complete_example =
    drain_complete numbers memory_source search full_fuel full_rounds (pos 7) (λ a n. refl)
      (omega arith) refl refl refl (omega arith) refl
      (
        ((omega arith, omega arith), (omega arith, omega arith)),
        (((omega arith, omega arith), (omega arith, omega arith)), tt),
      )
      (omega arith) (omega arith)
