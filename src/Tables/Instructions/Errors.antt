-- ===== src/Tables/Instructions/Errors.antt =====
-- When the scans and filters of the instructions report a failure.
use ghidrasql.Prelude.{
  ℤ, eqb_ℤ, select, Bool, true, false, not, ◌&&◌, ◌||◌, Option, none, some, List, [], ◌∷◌, ◌≡◌,
  refl, ◌⊎◌, inl, inr, if◌then◌else◌, Bytes, codes, Bool-cases, Option-cases,
}
use ghidrasql.Model.{FunctionRow, InstructionRow}
use ghidrasql.Owner.{containing_func_addr, assign_instruction_func_addrs, assign_operand_func_addrs}
use ghidrasql.Tables.Window.{MemoryBytesWindow}
use ghidrasql.Tables.Instructions.{
  Listing, generator_read, build_instructions_for_func, instruction_generator, addr_filter,
  func_addr_filter, function_end_inclusive, operand_addr_filter, Scan, failed, rows_only,
  report_write_error, cut_window, keep_function_rows,
}

-- The rows of the source that a scan of a window needs can be read; an empty window needs none.
abbrev pub rows_read : Listing → Option MemoryBytesWindow → Bool
rows_read source none = source.read_instructions.0
rows_read source (some window) =
    window.empty || (source.read_instructions_in_range window.lo window.hi).0

-- The source has no such function, or the instructions and the functions can be read that the filter
-- on the function needs.
abbrev pub function_read : Listing → Option FunctionRow → Bool
function_read source none = true
function_read source (some function) =
    (source.read_instructions_in_range function.address (function_end_inclusive function)).0
    && source.read_functions.0

abbrev pub is_none : {A : Type 0} → Option A → Bool
is_none none = true
is_none (some x) = false

-- What a scan is, where the reads that it needs succeed or fail.
abbrev pub Outcome : {A : Type 0} → Bool → Scan A → Type 0
Outcome ok scan =
    ((ok ≡ true) × (scan.reported ≡ none))
    ⊎ ((ok ≡ false) × (scan.rows ≡ []) × (message : Bytes) × (scan.reported ≡ some message))

with_functions :
    {A : Type 0} (functions : Bool) (message : Bytes) (rows : List A)
    → Outcome functions (if functions then rows_only rows else failed message)
with_functions true message rows = inl (refl, refl)
with_functions false message rows = inr (refl, refl, message, refl)

choice :
    {A : Type 0} (read empty functions : Bool) (first second : Bytes) (rows : List A)
    → Outcome ((empty || read) && functions) (
        if not read && not empty
        then failed first
        else if not functions
        then failed second
        else rows_only rows)
choice true true true first second rows = inl (refl, refl)
choice true false true first second rows = inl (refl, refl)
choice false true true first second rows = inl (refl, refl)
choice false false functions first second rows = inr (refl, refl, first, refl)
choice true true false first second rows = inr (refl, refl, second, refl)
choice true false false first second rows = inr (refl, refl, second, refl)
choice false true false first second rows = inr (refl, refl, second, refl)

abbrev no_functions : Listing → Bytes
no_functions source =
    report_write_error source.last_error
      (codes "instructions: failed to read functions for func_addr")

generator-Outcome :
    (source : Listing) (window : Option MemoryBytesWindow)
    → Outcome
        (rows_read source window && source.read_functions.0)
        (instruction_generator source window)
unfolding instruction_generator generator_read cut_window
generator-Outcome source none =
    choice source.read_instructions.0 false source.read_functions.0
      (report_write_error source.last_error (codes "instructions: source read failed"))
      (no_functions source)
      (assign_instruction_func_addrs source.read_functions.1 source.read_instructions.1)
generator-Outcome source (some window) = elim (Bool-cases window.empty) [
  | inl e ↦ rw e (
      choice false true source.read_functions.0
        (report_write_error source.last_error (codes "instructions: source read failed"))
        (no_functions source)
        (cut_window (some window) (assign_instruction_func_addrs source.read_functions.1 [])))
  | inr e ↦
      let read = source.read_instructions_in_range window.lo window.hi in
      rw e (
        choice read.0 false source.read_functions.0
          (report_write_error source.last_error (codes "instructions: source read failed"))
          (no_functions source)
          (cut_window (some window) (assign_instruction_func_addrs source.read_functions.1 read.1)))
]

addr_filter-Outcome :
    (source : Listing) (address : ℤ)
    → Outcome
        (is_none (source.read_instruction_at address) || source.read_functions.0)
        (addr_filter source address)
unfolding addr_filter
addr_filter-Outcome source address = elim (Option-cases (source.read_instruction_at address)) [
  | inl e ↦ rw (e, addr_filter) (inl (refl, refl))
  | inr (row, e) ↦
      rw (e, addr_filter)
        (with_functions source.read_functions.0 (no_functions source) (
          record row { func_addr = containing_func_addr source.read_functions.1 row.address } ∷ []))
]

window_kept :
    (read functions : Bool) (message : Bytes) (rows : List InstructionRow)
    → (let built : Bool × List InstructionRow =
          if not read then (false, []) else if not functions then (false, []) else (true, rows) in
        Outcome (read && functions) (record {
          rows = built.1;
          reported = if not built.0 && true then some message else none;
        }))
window_kept true true message rows = inl (refl, refl)
window_kept true false message rows = inr (refl, refl, message, refl)
window_kept false functions message rows = inr (refl, refl, message, refl)

func_addr_filter-Outcome :
    (source : Listing) (func_addr : ℤ)
    → Outcome
        (function_read source (source.read_function_at func_addr))
        (func_addr_filter source true func_addr)
unfolding func_addr_filter keep_function_rows build_instructions_for_func
func_addr_filter-Outcome source func_addr =
    elim (Option-cases (source.read_function_at func_addr)) [
      | inl e ↦ rw (e, func_addr_filter, build_instructions_for_func) (inl (refl, refl))
      | inr (function, e) ↦
          let read =
            source.read_instructions_in_range function.address (function_end_inclusive function) in
          rw (e, func_addr_filter, build_instructions_for_func)
            (window_kept read.0 source.read_functions.0
              (report_write_error source.last_error
                (codes "instructions: failed to read function window"))
              (select (λ row. eqb_ℤ row.func_addr func_addr)
                (assign_instruction_func_addrs source.read_functions.1 read.1)))
    ]

operand_addr_filter-Outcome :
    (source : Listing) (address : ℤ)
    → Outcome
        (not (source.read_instruction_operands_in_range address address).0
          || source.read_functions.0)
        (operand_addr_filter source address)
unfolding operand_addr_filter
operand_addr_filter-Outcome source address =
    let read = source.read_instruction_operands_in_range address address in
    elim (Bool-cases read.0) [
      | inl e ↦ rw e (
          with_functions source.read_functions.0
            (report_write_error source.last_error
              (codes "instruction_operands: failed to read functions for func_addr"))
            (assign_operand_func_addrs source.read_functions.1 read.1))
      | inr e ↦ rw e (inl (refl, refl))
    ]

-- The full or windowed scan of the instructions, their filters on an address and on a function, and the
-- filter of the operands on an address: one that can read what it needs reports nothing, and one that
-- cannot gives no rows and reports a failure. The scan needs its rows, unless the window is empty, and
-- the functions; the filter on an address needs the functions where the source has an instruction
-- there; the filter on a function needs the instructions from its start to its end and the functions,
-- where the source has the function and no error is pending; the operands need the functions, where
-- their own read succeeds (a failure of that one is reported by the source alone).
pub instruction_generator-reported :
    (source : Listing) (window : Option MemoryBytesWindow) (address func_addr : ℤ)
    → Outcome
        (rows_read source window && source.read_functions.0)
        (instruction_generator source window)
      × Outcome
          (is_none (source.read_instruction_at address) || source.read_functions.0)
          (addr_filter source address)
      × Outcome
          (function_read source (source.read_function_at func_addr))
          (func_addr_filter source true func_addr)
      × Outcome
          (not (source.read_instruction_operands_in_range address address).0
            || source.read_functions.0)
          (operand_addr_filter source address)
instruction_generator-reported source window address func_addr = (
  generator-Outcome source window,
  addr_filter-Outcome source address,
  func_addr_filter-Outcome source func_addr,
  operand_addr_filter-Outcome source address,
)
