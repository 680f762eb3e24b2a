-- ===== src/Examples/Sources.antt =====
-- The theorems on readers and scans at concrete inputs.
use ghidrasql.Prelude.{
  ℕ, pos, ◌&&◌, ◌||◌, not, if◌then◌else◌, ◌>>=◌, negsuc, eqb_ℤ, true, false, some, none, List, [],
  ◌∷◌, ◌≡◌, refl, arith, codes, select, All,
}
use ghidrasql.Model.{FunctionRow, InstructionRow, XrefRow, DecompilationDetail}
use ghidrasql.Memory.Regions.Blocks.{in_window}
use ghidrasql.Memory.Spans.{instruction_byte_span, decoded_hex_byte_count}
use ghidrasql.Memory.Words.{InInt64}
use ghidrasql.Tables.Instructions.Rows.{Listed}
use ghidrasql.Owner.{containing_func_addr}
use ghidrasql.Readers.{Bulk, read_xrefs_from_function}
use ghidrasql.Readers.Keeps.{read_xrefs_from_function_lem}
use ghidrasql.Readers.Detail.{decompile_detail}
use ghidrasql.Readers.Detail.Own.{Own, decompile_detail-Own}
use ghidrasql.Tables.RowIds.{encode_address_slot_rowid, decode_address_slot_rowid}
use ghidrasql.Tables.RowIds.RoundTrip.{within, decode-encode_address_slot_rowid}
use ghidrasql.Tables.Window.{ConstraintArg, ge_op, lt_op, memory_bytes_window_from_args}
use ghidrasql.Tables.Window.Exact.{meets_all, memory_bytes_window_from_args_lem}
use ghidrasql.Tables.Instructions.{
  Listing, addr_filter, operand_addr_filter, default_listing, instruction_generator,
  func_addr_filter,
}
use ghidrasql.Tables.Instructions.Pushdown.{instruction_generator_lem}
use ghidrasql.Tables.Instructions.PerFunction.{owned_by, func_addr_filter_lem}
use ghidrasql.Tables.Instructions.Errors.{
  Outcome, rows_read, function_read, is_none, instruction_generator-reported,
}

slot_example :
    (encode_address_slot_rowid (negsuc 99) 3 >>= decode_address_slot_rowid)
    ≡ (if within 59 (negsuc 99) then some (negsuc 99, 3) else none)
slot_example = decode-encode_address_slot_rowid (negsuc 99) 3 (omega arith)

-- From 4 on and below 9.
abbrev two_args : List ConstraintArg
two_args = record { op = ge_op; value = pos 4 } ∷ record { op = lt_op; value = pos 9 } ∷ []

window_example :
    (let w = memory_bytes_window_from_args two_args in
      in_window w.lo w.hi (pos 6) ≡ meets_all (pos 6) two_args)
window_example = memory_bytes_window_from_args_lem (pos 6) two_args (omega arith, omega arith)

abbrev function_from : ℕ → ℕ → FunctionRow
function_from start size = record {
  address = pos start;
  name = codes "f";
  size = pos size;
  end_ea = pos 0;
  flags = pos 0;
  namespace_name = [];
  signature = [];
  param_count = pos 0;
}

abbrev nop_at : ℕ → InstructionRow
nop_at address = record {
  address = pos address;
  mnemonic = codes "nop";
  operands = [];
  disasm = codes "nop";
  size = pos 2;
  bytes = codes "9090";
  func_addr = pos 0;
}

abbrev jump_from : ℕ → XrefRow
jump_from from = record {
  from_ea = pos from;
  to_ea = pos 4;
  kind = codes "jump";
  is_code = 1;
  is_data = 0;
}

-- Two functions, three instructions and two cross references.
abbrev rows : Bulk
rows = record {
  read_functions = (true, function_from 4 12 ∷ function_from 16 8 ∷ []);
  read_symbols = (false, []);
  read_strings = (false, []);
  read_xrefs = (true, jump_from 6 ∷ jump_from 18 ∷ []);
  read_call_edges = (false, []);
  read_data_items = (false, []);
  read_stack_frames = (false, []);
  read_stack_vars = (false, []);
  read_function_params = (false, []);
  read_instructions = (true, nop_at 3 ∷ nop_at 4 ∷ nop_at 18 ∷ []);
  read_instruction_operands = (false, []);
  read_comments = (false, []);
  read_breakpoints = (false, []);
  read_bookmarks = (false, []);
  read_pseudocode = (false, []);
  read_decomp_lvars = (false, []);
  read_decomp_tokens = (false, []);
}

xrefs_example : read_xrefs_from_function rows (pos 4) ≡ (
  true,
  select
      (λ row. eqb_ℤ (containing_func_addr rows.read_functions.1 row.from_ea) (pos 4))
      rows.read_xrefs.1,
)
xrefs_example = read_xrefs_from_function_lem rows (pos 4) (λ e. absurd (ground (arith, e)))

abbrev detail : DecompilationDetail
detail = record {
  func_addr = pos 4;
  func_name = codes "f";
  prototype = [];
  pseudocode = codes "x";
  completed = true;
  is_fallback = false;
  error_message = [];
  locals = [];
  tokens = [];
}

detail_given : decompile_detail (codes "x") rows (pos 4) ≡ some detail
unfolding decompile_detail
detail_given = refl

detail_example : Own (pos 4) detail
detail_example = decompile_detail-Own (codes "x") rows (pos 4) detail detail_given

nop_length : (n : ℕ) → InInt64 (instruction_byte_span (nop_at n))
unfolding instruction_byte_span decoded_hex_byte_count
nop_length n = (omega arith, omega arith)

nops-Listed : All Listed rows.read_instructions.1
nops-Listed = (
  ((omega arith, omega arith), nop_length 3),
  (((omega arith, omega arith), nop_length 4), (((omega arith, omega arith), nop_length 18), tt)),
)

between_example :
    (instruction_generator
      (default_listing rows [])
      (some (memory_bytes_window_from_args two_args))).rows
    ≡ (select
        (λ row. meets_all row.address two_args)
        (instruction_generator (default_listing rows []) none).rows)
between_example = instruction_generator_lem rows [] two_args nops-Listed

per_function_example :
    (func_addr_filter (default_listing rows []) true (pos 4)).rows
    ≡ (select (owned_by (pos 4)) (instruction_generator (default_listing rows []) none).rows)
per_function_example =
    func_addr_filter_lem rows [] true (pos 4) (λ e. absurd (ground (arith, e)))
      ((refl, tt), (tt, tt)) nops-Listed

-- A source whose functions cannot be read.
abbrev unread : Listing
unread = default_listing (record rows { read_functions = (false, []) }) []

reported_example :
    Outcome (rows_read unread none && unread.read_functions.0) (instruction_generator unread none)
    × Outcome
        (is_none (unread.read_instruction_at (pos 4)) || unread.read_functions.0)
        (addr_filter unread (pos 4))
    × Outcome
        (function_read unread (unread.read_function_at (pos 4)))
        (func_addr_filter unread true (pos 4))
    × Outcome
        (not (unread.read_instruction_operands_in_range (pos 4) (pos 4)).0
          || unread.read_functions.0)
        (operand_addr_filter unread (pos 4))
reported_example = instruction_generator-reported unread none (pos 4) (pos 4)
