-- ===== src/Examples/Tables.antt =====
-- The theorems on derived rows at concrete inputs.
use ghidrasql.Prelude.{
  ℕ, pos, eqb_ℤ, true, false, [], ◌∷◌, ◌≡◌, refl, inr, if◌then◌else◌, codes, any, count, All,
}
use ghidrasql.Model.{FunctionRow, SegmentRow, XrefRow, CallEdgeRow}
use ghidrasql.Ranges.{build_function_ranges, range_function_for_address}
use ghidrasql.Derive.{Source}
use ghidrasql.Derive.Blocks.{derive_block_rows}
use ghidrasql.Derive.Calls.{CallEdgeKey, derive_call_edge_rows}
use ghidrasql.Derive.Calls.Once.{has_key, gives, derive_call_edge_rows-count}
use ghidrasql.Derive.Metrics.{metric_row}
use ghidrasql.Derive.Metrics.Counts.{names, refers, metric_row-counts}
use ghidrasql.Derive.TailCalls.{derive_tail_call_rows}
use ghidrasql.Derive.TailCalls.Edges.{Leaves, derive_tail_call_rows-Leaves}
use ghidrasql.Derive.Chunks.{
  primary_of, Proper, derive_function_chunk_rows, derive_function_chunk_rows_lem,
}

abbrev function_from : ℕ → ℕ → FunctionRow
function_from start size = record {
  address = pos start;
  name = codes "f";
  size = pos size;
  end_ea = pos 0;
  flags = pos 0;
  namespace_name = [];
  signature = [];
  param_count = pos 0;
}

abbrev text_segment : SegmentRow
text_segment = record {
  start_ea = pos 0;
  end_ea = pos 64;
  name = codes ".text";
  segment_class = [];
  perm = 5;
  bitness = 64;
}

abbrev call_from : ℕ → ℕ → XrefRow
call_from from to = record {
  from_ea = pos from;
  to_ea = pos to;
  kind = codes "call";
  is_code = 1;
  is_data = 0;
}

-- Two functions, the first of which calls the second twice from one place.
abbrev program : Source
program = record {
  read_functions = (true, function_from 4 12 ∷ function_from 16 8 ∷ []);
  read_segments = (true, text_segment ∷ []);
  read_memory_blocks = (false, []);
  read_blocks = (false, []);
  read_instructions = (false, []);
  read_strings = (false, []);
  read_xrefs = (true, call_from 6 16 ∷ call_from 6 16 ∷ []);
  read_call_edges = (true, []);
}

abbrev call_key : CallEdgeKey
call_key = record { src = pos 4; site = pos 6; dst = pos 16; kind = codes "call" }

calls_example : count (has_key call_key) (derive_call_edge_rows program) ≡ (
    if any (gives (build_function_ranges program.read_functions.1) call_key) program.read_xrefs.1
    then 1
    else 0)
calls_example = derive_call_edge_rows-count program call_key (inr refl)

metric_example :
    (let row = metric_row program (function_from 4 12) in
      let ranges = build_function_ranges program.read_functions.1 in
      (row.instruction_count
        ≡ pos (
            count
              (λ i. eqb_ℤ (pos 4) (range_function_for_address ranges i.address))
              program.read_instructions.1))
      × (row.block_count ≡ pos (count (λ b. eqb_ℤ (pos 4) b.func_addr) (derive_block_rows program)))
      × (row.call_out_count
          ≡ pos (count (λ e. names (pos 4) e.src_func_addr) (derive_call_edge_rows program)))
      × (row.call_in_count
          ≡ pos (count (λ e. names (pos 4) e.dst_func_addr) (derive_call_edge_rows program)))
      × (row.string_ref_count
          ≡ pos (count (refers ranges program.read_strings.1 (pos 4)) program.read_xrefs.1)))
metric_example = metric_row-counts program (function_from 4 12)

abbrev tail_edge : CallEdgeRow
tail_edge = record {
  src_func_addr = pos 4;
  src_func_name = codes "f";
  call_site = pos 14;
  dst_addr = pos 16;
  dst_func_addr = pos 16;
  dst_func_name = codes "g";
  kind = codes "call";
}

abbrev tail_program : Source
tail_program = record program { read_call_edges = (true, tail_edge ∷ []) }

tail_example :
    All
      (Leaves tail_program.read_functions.1 tail_program.read_call_edges.1)
      (derive_tail_call_rows tail_program)
tail_example = derive_tail_call_rows-Leaves tail_program

chunks_example :
    All Proper (derive_function_chunk_rows program)
    × All
        (λ fn. any (primary_of fn.address) (derive_function_chunk_rows program) ≡ true)
        program.read_functions.1
chunks_example = derive_function_chunk_rows_lem program
