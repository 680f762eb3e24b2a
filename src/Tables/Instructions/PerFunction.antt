-- ===== src/Tables/Instructions/PerFunction.antt =====
-- The instructions of one function: the rows of the full scan that the function owns.
use ghidrasql.Prelude.{
  ℤ, pos, ◌-ℤ◌, ◌≤ℤ◌, +ℤ_parts, -ℤ_parts, eqb_ℤ, eqb_ℤ_iff, max_ℤ, Bool, true, false, none, some,
  List, ◌≡◌, ◌≢◌, refl, sym, ap, ◌∙◌, subst, inl, inr, arith, All, All-imp, select, Pairwise,
  Bool-cases, Option-cases, Bytes,
}
use ghidrasql.Model.{FunctionRow, InstructionRow}
use ghidrasql.Memory.Words.{int64_max, InInt64}
use ghidrasql.Memory.Spans.{instruction_byte_span, byte_span_intersects_range}
use ghidrasql.Owner.{function_body_end, containing_func_addr}
use ghidrasql.Owner.Agree.{scanned}
use ghidrasql.Owner.Holds.{holds_addr, containing_func_addr-owns, Apart, find_if-holds}
use ghidrasql.Readers.{Bulk, find_if, read_function_at, read_instructions_in_range}
use ghidrasql.Tables.Instructions.Rows.{All-any, Listed, meets_window, assign_select, assign_none}
use ghidrasql.Tables.Instructions.{
  default_listing, instruction_generator, generator_read, cut_window,
}
use ghidrasql.Tables.Instructions.{
  function_end_inclusive, keep_function_rows, build_instructions_for_func, func_addr_filter,
}

body_holds :
    (fn : FunctionRow) (addr : ℤ)
    → InInt64 addr
    → holds_addr addr fn ≡ true
    → (fn.address ≤ℤ addr) × (addr ≤ℤ function_end_inclusive fn)
unfolding function_end_inclusive function_body_end
body_holds fn addr h k =
    let last = -ℤ_parts fn.end_ea (pos 1) in
    let delta = -ℤ_parts (max_ℤ fn.size (pos 1)) (pos 1) in
    let limit = -ℤ_parts int64_max (max_ℤ fn.size (pos 1) -ℤ pos 1) in
    let size = +ℤ_parts fn.address (max_ℤ fn.size (pos 1)) in
    let end = +ℤ_parts fn.address (max_ℤ fn.size (pos 1) -ℤ pos 1) in (ground arith, ground arith)

abbrev pub at_function : ℤ → FunctionRow → Bool
at_function func_addr row = eqb_ℤ row.address func_addr

abbrev pub owned_by : ℤ → InstructionRow → Bool
owned_by func_addr row = eqb_ℤ row.func_addr func_addr

absent :
    (funcs : List FunctionRow) (func_addr addr : ℤ)
    → func_addr ≢ pos 0
    → Pairwise Apart funcs
    → find_if (at_function func_addr) funcs ≡ none
    → eqb_ℤ (containing_func_addr funcs addr) func_addr ≡ false
absent funcs func_addr addr n d e =
    elim (Bool-cases (eqb_ℤ (containing_func_addr funcs addr) func_addr)) [
      | inr k ↦ k
      | inl k ↦
          let found = find_if-holds func_addr addr funcs d (
            containing_func_addr-owns funcs addr func_addr n
              ((eqb_ℤ_iff (containing_func_addr funcs addr) func_addr).0 k)) in
          absurd (differ found.0 (sym e ∙ found.1))
    ]
  where
    differ : (fn : FunctionRow) → none ≡ some fn → ⊥
    differ fn k = ground arith

owned_inside :
    (funcs : List FunctionRow) (func_addr : ℤ) (fn : FunctionRow) (row : InstructionRow)
    → func_addr ≢ pos 0
    → Pairwise Apart funcs
    → find_if (at_function func_addr) funcs ≡ some fn
    → Listed row
    → eqb_ℤ (containing_func_addr funcs row.address) func_addr ≡ true
    → byte_span_intersects_range row.address
        (instruction_byte_span row)
        fn.address
        (function_end_inclusive fn)
      ≡ true
owned_inside funcs func_addr fn row n d e l k =
    let found = find_if-holds func_addr row.address funcs d (
      containing_func_addr-owns funcs row.address func_addr n
        ((eqb_ℤ_iff (containing_func_addr funcs row.address) func_addr).0 k)) in
    let same = some_inj found.0 (sym found.1 ∙ e) in
    let parts =
      body_holds fn row.address l.0 (subst (λ g. holds_addr row.address g ≡ true) same found.2) in
    meets_window row fn.address (function_end_inclusive fn) l parts.0 parts.1
  where
    some_inj : (g : FunctionRow) → some g ≡ some fn → g ≡ fn
    some_inj g h = ap (λ o. elim o [ none ↦ fn | some x ↦ x ]) h

-- The scan for one function gives the rows of the full scan that the function owns, in their order,
-- where its address is not 0, no two functions share an address, and every instruction's address and
-- length are `int64_t` values.
pub func_addr_filter_lem :
    (bulk : Bulk) (last_error : Bytes) (quiet : Bool) (func_addr : ℤ)
    → func_addr ≢ pos 0
    → Pairwise Apart bulk.read_functions.1
    → All Listed bulk.read_instructions.1
    → (func_addr_filter (default_listing bulk last_error) quiet func_addr).rows ≡ (
        select
          (owned_by func_addr)
          (instruction_generator (default_listing bulk last_error) none).rows)
unfolding func_addr_filter build_instructions_for_func keep_function_rows instruction_generator
    generator_read cut_window read_instructions_in_range read_function_at
func_addr_filter_lem bulk last_error quiet func_addr n d h =
    elim (Bool-cases bulk.read_functions.0) [
      | inr f ↦ elim (Bool-cases bulk.read_instructions.0) [
        | inl i ↦ rw (f, i) refl
        | inr i ↦ rw (f, i) refl
      ]
      | inl f ↦ elim (Option-cases (find_if (at_function func_addr) bulk.read_functions.1)) [
        | inl e ↦ elim (Bool-cases bulk.read_instructions.0) [
          | inr i ↦ rw (f, build_instructions_for_func, e, i) refl
          | inl i ↦
              rw (f, build_instructions_for_func, e, i)
                (sym (
                  assign_none bulk.read_functions.1 (owned_by func_addr) bulk.read_instructions.1 (
                    All-any (λ row. owned_by func_addr (scanned bulk.read_functions.1 row) ≡ false)
                      (λ row. absent bulk.read_functions.1 func_addr row.address n d e)
                      bulk.read_instructions.1)))
        ]
        | inr (fn, e) ↦ elim (Bool-cases bulk.read_instructions.0) [
          | inr i ↦ rw (f, build_instructions_for_func, e, i) refl
          | inl i ↦
              rw (f, build_instructions_for_func, e, i, f)
                (assign_select bulk.read_functions.1 (owned_by func_addr)
                  (λ row.
                    byte_span_intersects_range row.address (instruction_byte_span row) fn.address
                      (function_end_inclusive fn))
                  bulk.read_instructions.1
                  (All-imp Listed
                    (λ row.
                      owned_by func_addr (scanned bulk.read_functions.1 row) ≡ true
                      → byte_span_intersects_range row.address (instruction_byte_span row)
                          fn.address (function_end_inclusive fn)
                        ≡ true)
                    (λ row l k. owned_inside bulk.read_functions.1 func_addr fn row n d e l k)
                    bulk.read_instructions.1 h))
        ]
      ]
    ]
