-- ===== src/Derive/Metrics.antt =====
-- `derive_function_metric_rows`: the counts per function and the cyclomatic complexity. A hash map
-- from addresses to counts, which gives 0 for an address that it lacks, is a function.
pub mod Counts
use ghidrasql.Prelude.{
  ℕ, ℤ, pos, ◌+ℤ◌, ◌-ℤ◌, ltb_ℤ, leb_ℤ, eqb_ℤ, Bool, not, ◌&&◌, ◌||◌, Option, none, some, List, [],
  ◌∷◌, map, if◌then◌else◌, any,
}
use ghidrasql.Model.{
  FunctionRow, InstructionRow, BlockRow, CallEdgeRow, StringRow, XrefRow, FunctionMetricRow,
}
use ghidrasql.Ranges.{FunctionRange, build_function_ranges, range_function_for_address}
use ghidrasql.Derive.{Source}
use ghidrasql.Derive.Blocks.{derive_block_rows}
use ghidrasql.Derive.Calls.{derive_call_edge_rows}

-- `map[key] += weight`
unfoldable pub bump : ℤ → ℤ → (ℤ → ℤ) → ℤ → ℤ
bump key weight counts x = if eqb_ℤ x key then counts x +ℤ weight else counts x

-- A loop that adds what each row gives: a key and a weight, or nothing.
unfoldable pub tally : {A : Type 0} → (A → Option (ℤ × ℤ)) → List A → (ℤ → ℤ) → ℤ → ℤ
unfolding bump
tally step [] counts = counts
tally step (x ∷ xs) counts =
    tally step xs (elim (step x) [ none ↦ counts | some (key, weight) ↦ bump key weight counts ])

abbrev pub no_counts : ℤ → ℤ
no_counts x = pos 0

-- What one row gives to each of the six maps.
abbrev pub instr_step : List FunctionRange → InstructionRow → Option (ℤ × ℤ)
instr_step ranges row = some (range_function_for_address ranges row.address, pos 1)

abbrev pub block_step : BlockRow → Option (ℤ × ℤ)
block_step row = some (row.func_addr, pos 1)

abbrev pub edge_step : BlockRow → Option (ℤ × ℤ)
edge_step row = if ltb_ℤ (pos 0) row.out_degree then some (row.func_addr, row.out_degree) else none

abbrev pub known : ℤ → Option (ℤ × ℤ)
known addr = if eqb_ℤ addr (pos 0) then none else some (addr, pos 1)

abbrev pub call_out_step : CallEdgeRow → Option (ℤ × ℤ)
call_out_step row = known row.src_func_addr

abbrev pub call_in_step : CallEdgeRow → Option (ℤ × ℤ)
call_in_step row = known row.dst_func_addr

abbrev pub string_step : List FunctionRange → List StringRow → XrefRow → Option (ℤ × ℤ)
string_step ranges strings x =
    if any (λ s. eqb_ℤ s.address x.to_ea) strings
    then known (range_function_for_address ranges x.from_ea)
    else none

-- `cyclomatic`, from the counts of instructions, blocks and edges.
pub cyclomatic_complexity : ℤ → ℤ → ℤ → ℤ
cyclomatic_complexity instruction_count block_count edge_count =
    let node_count =
      if leb_ℤ block_count (pos 0)
      then (if ltb_ℤ (pos 0) instruction_count then pos 1 else pos 0)
      else block_count in
    let cyclomatic = (edge_count -ℤ node_count) +ℤ pos 2 in
    if leb_ℤ node_count (pos 0) || ltb_ℤ cyclomatic (pos 1) then pos 1 else cyclomatic

pub metric_row : Source → FunctionRow → FunctionMetricRow
unfolding tally cyclomatic_complexity
metric_row source fn =
    let ranges = build_function_ranges source.read_functions.1 in
    let blocks = derive_block_rows source in
    let call_edges = derive_call_edge_rows source in
    let instructions = tally (instr_step ranges) source.read_instructions.1 no_counts fn.address in
    let block_count = tally block_step blocks no_counts fn.address in
    let edge_count = tally edge_step blocks no_counts fn.address in
    record {
      func_addr = fn.address;
      func_name = fn.name;
      size = fn.size;
      instruction_count = instructions;
      block_count = block_count;
      edge_count = edge_count;
      cyclomatic_complexity = cyclomatic_complexity instructions block_count edge_count;
      call_in_count = tally call_in_step call_edges no_counts fn.address;
      call_out_count = tally call_out_step call_edges no_counts fn.address;
      string_ref_count =
          tally (string_step ranges source.read_strings.1) source.read_xrefs.1 no_counts fn.address;
      token_count = pos 0;
    }

pub derive_function_metric_rows : Source → List FunctionMetricRow
unfolding metric_row
derive_function_metric_rows source = map (metric_row source) source.read_functions.1
