-- ===== src/Tables/Instructions.antt =====
-- The tables `instructions` and `instruction_operands` of src/lib/src/entities_tables.cpp: the full
-- scan, and the scans that take a test on an address, a function or a mnemonic to the source.
-- `xsql::set_vtab_error` is the message that is reported, if any, and `quiet` is
-- `xsql::get_vtab_error().empty()` behind the reads of the source.
pub mod Rows
pub mod Pushdown
pub mod PerFunction
pub mod Errors
use ghidrasql.Prelude.{
  ℤ, pos, ◌+ℤ◌, ◌-ℤ◌, ltb_ℤ, eqb_ℤ, max_ℤ, Bool, true, false, not, ◌&&◌, ◌||◌, Option, none, some,
  List, [], ◌∷◌, ◌++◌, if◌then◌else◌, select, is_empty, Bytes, codes, eqb,
}
use ghidrasql.Model.{FunctionRow, InstructionRow, InstructionOperandRow}
use ghidrasql.Memory.Words.{int64_max}
use ghidrasql.Memory.Regions.Blocks.{in_window}
use ghidrasql.Owner.{containing_func_addr, assign_instruction_func_addrs, assign_operand_func_addrs}
use ghidrasql.Readers.{
  Bulk, read_function_at, read_instruction_at, read_instructions_in_range,
  read_instruction_operands_in_range,
}
use ghidrasql.Tables.Window.{MemoryBytesWindow}

-- The methods of a source that the two tables call.
pub record Listing : Type 0 where
  pub read_functions : Bool × List FunctionRow
  pub read_function_at : ℤ → Option FunctionRow
  pub read_instructions : Bool × List InstructionRow
  pub read_instruction_at : ℤ → Option InstructionRow
  pub read_instructions_in_range : ℤ → ℤ → Bool × List InstructionRow
  pub read_instruction_operands : Bool × List InstructionOperandRow
  pub read_instruction_operands_in_range : ℤ → ℤ → Bool × List InstructionOperandRow
  pub last_error : Bytes

-- A source with the default readers.
abbrev pub default_listing : Bulk → Bytes → Listing
default_listing bulk last_error = record {
  read_functions = bulk.read_functions;
  read_function_at = read_function_at bulk;
  read_instructions = bulk.read_instructions;
  read_instruction_at = read_instruction_at bulk;
  read_instructions_in_range = read_instructions_in_range bulk;
  read_instruction_operands = bulk.read_instruction_operands;
  read_instruction_operands_in_range = read_instruction_operands_in_range bulk;
  last_error = last_error;
}

-- What a scan leaves: its rows, and the message that it reports.
pub record Scan (A : Type 0) : Type 0 where
  pub rows : List A
  pub reported : Option Bytes

abbrev pub rows_only : {A : Type 0} → List A → Scan A
rows_only rows = record { rows = rows; reported = none }

abbrev pub failed : {A : Type 0} → Bytes → Scan A
failed message = record { rows = []; reported = some message }

-- The message that is reported for a failure, with the source's own detail.
unfoldable pub report_write_error : Bytes → Bytes → Bytes
report_write_error last_error message =
    if is_empty last_error then message else message ++ (codes ": " ++ last_error)

-- `build_instructions_with_func_addr`, whose flag is false on a failure.
unfoldable pub build_instructions_with_func_addr : Listing → Bool × Scan InstructionRow
unfolding report_write_error
build_instructions_with_func_addr source =
    if not source.read_instructions.0
    then (false, rows_only [])
    else if not source.read_functions.0
    then (
      false,
      failed (
          report_write_error source.last_error
            (codes "instructions: failed to read functions for func_addr")),
    )
    else (
      true,
      rows_only (assign_instruction_func_addrs source.read_functions.1 source.read_instructions.1),
    )

unfoldable pub function_end_inclusive : FunctionRow → ℤ
function_end_inclusive fn =
    let delta = max_ℤ fn.size (pos 1) -ℤ pos 1 in
    if ltb_ℤ fn.address fn.end_ea
    then fn.end_ea -ℤ pos 1
    else if ltb_ℤ (int64_max -ℤ delta) fn.address
    then int64_max
    else fn.address +ℤ delta

-- The rest of `build_instructions_for_func`, with the window read.
unfoldable pub keep_function_rows :
    Listing → ℤ → Bool × List InstructionRow → Bool × List InstructionRow
keep_function_rows source func_addr read =
    if not read.0 then (false, []) else if not source.read_functions.0 then (false, []) else (
      true,
      select (λ row. eqb_ℤ row.func_addr func_addr)
          (assign_instruction_func_addrs source.read_functions.1 read.1),
    )

unfoldable pub build_instructions_for_func : Listing → Bool → ℤ → Bool × List InstructionRow
unfolding function_end_inclusive keep_function_rows
build_instructions_for_func source quiet func_addr = elim (source.read_function_at func_addr) [
  | none ↦ (quiet, [])
  | some function ↦
      keep_function_rows source func_addr
        (source.read_instructions_in_range function.address (function_end_inclusive function))
]

-- What the constructor of `InstructionGenerator` reads.
unfoldable pub generator_read : Listing → Option MemoryBytesWindow → Bool × List InstructionRow
generator_read source none = source.read_instructions
generator_read source (some window) =
    if window.empty then (false, []) else source.read_instructions_in_range window.lo window.hi

abbrev pub window_empty : Option MemoryBytesWindow → Bool
window_empty none = false
window_empty (some window) = window.empty

unfoldable pub cut_window : Option MemoryBytesWindow → List InstructionRow → List InstructionRow
cut_window none rows = rows
cut_window (some window) rows = select (λ row. in_window window.lo window.hi row.address) rows

unfoldable pub instruction_generator : Listing → Option MemoryBytesWindow → Scan InstructionRow
unfolding generator_read cut_window report_write_error
instruction_generator source window =
    let read = generator_read source window in
    if not read.0 && not (window_empty window)
    then failed (report_write_error source.last_error (codes "instructions: source read failed"))
    else if not source.read_functions.0
    then failed (
        report_write_error source.last_error
          (codes "instructions: failed to read functions for func_addr"))
    else rows_only
        (cut_window window (assign_instruction_func_addrs source.read_functions.1 read.1))

-- The filters of `define_instructions`.
unfoldable pub mnemonic_filter : Listing → Bytes → Scan InstructionRow
unfolding build_instructions_with_func_addr
mnemonic_filter source needle =
    let built = build_instructions_with_func_addr source in
    if built.0
    then rows_only (select (λ row. eqb row.mnemonic needle) built.1.rows)
    else record { rows = []; reported = built.1.reported }

unfoldable pub addr_filter : Listing → ℤ → Scan InstructionRow
unfolding report_write_error containing_func_addr
addr_filter source address = elim (source.read_instruction_at address) [
  | none ↦ rows_only []
  | some row ↦
      if source.read_functions.0
      then rows_only
          (record row { func_addr = containing_func_addr source.read_functions.1 row.address } ∷ [])
      else failed (
          report_write_error source.last_error
            (codes "instructions: failed to read functions for func_addr"))
]

unfoldable pub func_addr_filter : Listing → Bool → ℤ → Scan InstructionRow
unfolding build_instructions_for_func report_write_error
func_addr_filter source quiet func_addr =
    let built = build_instructions_for_func source quiet func_addr in
    record {
      rows = built.1;
      reported =
          if not built.0 && quiet
          then some (
              report_write_error source.last_error
                (codes "instructions: failed to read function window"))
          else none;
    }

-- `build_instruction_operands_with_func_addr`, the scan that fills the cache of the table.
unfoldable pub build_instruction_operands_with_func_addr : Listing → Scan InstructionOperandRow
unfolding report_write_error
build_instruction_operands_with_func_addr source =
    if not source.read_instruction_operands.0
    then rows_only []
    else if not source.read_functions.0
    then failed (
        report_write_error source.last_error
          (codes "instruction_operands: failed to read functions for func_addr"))
    else rows_only
        (assign_operand_func_addrs source.read_functions.1 source.read_instruction_operands.1)

unfoldable pub keep_function_operands :
    Listing → ℤ → Bool × List InstructionOperandRow → Bool × List InstructionOperandRow
keep_function_operands source func_addr read =
    if not read.0 then (false, []) else if not source.read_functions.0 then (false, []) else (
      true,
      select (λ row. eqb_ℤ row.func_addr func_addr)
          (assign_operand_func_addrs source.read_functions.1 read.1),
    )

unfoldable pub build_instruction_operands_for_func :
    Listing → Bool → ℤ → Bool × List InstructionOperandRow
unfolding function_end_inclusive keep_function_operands
build_instruction_operands_for_func source quiet func_addr =
    elim (source.read_function_at func_addr) [
      | none ↦ (quiet, [])
      | some function ↦ keep_function_operands source func_addr (
          source.read_instruction_operands_in_range function.address
            (function_end_inclusive function))
    ]

-- The filters of `define_instruction_operands`.
unfoldable pub operand_addr_filter : Listing → ℤ → Scan InstructionOperandRow
unfolding report_write_error
operand_addr_filter source address =
    let read = source.read_instruction_operands_in_range address address in
    if not read.0
    then rows_only []
    else if source.read_functions.0
    then rows_only (assign_operand_func_addrs source.read_functions.1 read.1)
    else failed (
        report_write_error source.last_error
          (codes "instruction_operands: failed to read functions for func_addr"))

unfoldable pub operand_func_addr_filter : Listing → Bool → ℤ → Scan InstructionOperandRow
unfolding build_instruction_operands_for_func report_write_error
operand_func_addr_filter source quiet func_addr =
    let built = build_instruction_operands_for_func source quiet func_addr in
    record {
      rows = built.1;
      reported =
          if not built.0 && quiet
          then some (
              report_write_error source.last_error
                (codes "instruction_operands: failed to read function window"))
          else none;
    }
