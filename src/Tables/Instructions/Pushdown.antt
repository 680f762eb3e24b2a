-- ===== src/Tables/Instructions/Pushdown.antt =====
-- A test that is taken to the source gives the rows of the full scan that pass it.
use ghidrasql.Prelude.{
  ℤ, ◌≤ℤ◌, true, false, none, some, List, [], ◌∷◌, ◌≡◌, refl, sym, ◌∙◌, inl, inr, arith, All,
  All-imp, map, select, Bool-cases, Bytes,
}
use ghidrasql.Model.{FunctionRow, InstructionRow}
use ghidrasql.Memory.Words.{InInt64}
use ghidrasql.Memory.Spans.{instruction_byte_span, byte_span_intersects_range}
use ghidrasql.Memory.Regions.Blocks.{in_window}
use ghidrasql.Owner.Agree.{scanned, assign_instruction_func_addrs_lem}
use ghidrasql.Readers.{Bulk, read_instructions_in_range}
use ghidrasql.Tables.Window.{
  MemoryBytesWindow, ConstraintArg, memory_bytes_window_from_args, closed_window, fold_constraints,
  whole_window,
}
use ghidrasql.Tables.Window.Exact.{meets_all, memory_bytes_window_from_args_lem}
use ghidrasql.Tables.Instructions.Rows.{
  select_congr, All-any, Listed, meets_window, assign_select, assign_none, assign_nil,
}
use ghidrasql.Tables.Instructions.{
  default_listing, instruction_generator, generator_read, cut_window,
}

in_window_parts : (lo hi a : ℤ) → in_window lo hi a ≡ true → (lo ≤ℤ a) × (a ≤ℤ hi)
in_window_parts lo hi a h = (ground arith, ground arith)

window_rows :
    (bulk : Bulk) (last_error : Bytes) (w : MemoryBytesWindow)
    → All Listed bulk.read_instructions.1
    → (w.empty ≡ true → (a : ℤ) → in_window w.lo w.hi a ≡ false)
    → (instruction_generator (default_listing bulk last_error) (some w)).rows ≡ (
        select
          (λ row. in_window w.lo w.hi row.address)
          (instruction_generator (default_listing bulk last_error) none).rows)
unfolding instruction_generator generator_read cut_window read_instructions_in_range
window_rows bulk last_error w h k = elim (Bool-cases bulk.read_functions.0) [
  | inl f ↦ elim (Bool-cases bulk.read_instructions.0) [
    | inl i ↦ elim (Bool-cases w.empty) [
      | inl e ↦
          rw (f, i, e, assign_nil bulk.read_functions.1)
            (sym (
              assign_none bulk.read_functions.1 (λ row. in_window w.lo w.hi row.address)
                bulk.read_instructions.1
                (All-any
                  (λ row. in_window w.lo w.hi (scanned bulk.read_functions.1 row).address ≡ false)
                  (λ row. k e row.address) bulk.read_instructions.1)))
      | inr e ↦
          rw (f, i, e)
            (assign_select bulk.read_functions.1 (λ row. in_window w.lo w.hi row.address)
              (λ row. byte_span_intersects_range row.address (instruction_byte_span row) w.lo w.hi)
              bulk.read_instructions.1
              (All-imp Listed
                (λ row.
                  in_window w.lo w.hi row.address ≡ true
                  → byte_span_intersects_range row.address (instruction_byte_span row) w.lo w.hi
                    ≡ true)
                (λ row l inside.
                  let parts = in_window_parts w.lo w.hi row.address inside in
                  meets_window row w.lo w.hi l parts.0 parts.1)
                bulk.read_instructions.1 h))
    ]
    | inr i ↦ elim (Bool-cases w.empty) [
      | inl e ↦ rw (f, i, e, assign_nil bulk.read_functions.1) refl
      | inr e ↦ rw (f, i, e) refl
    ]
  ]
  | inr f ↦ elim (Bool-cases bulk.read_instructions.0) [
    | inl i ↦ elim (Bool-cases w.empty) [ inl e ↦ rw (f, i, e) refl | inr e ↦ rw (f, i, e) refl ]
    | inr i ↦ elim (Bool-cases w.empty) [ inl e ↦ rw (f, i, e) refl | inr e ↦ rw (f, i, e) refl ]
  ]
]

empty_window :
    (args : List ConstraintArg)
    → (memory_bytes_window_from_args args).empty ≡ true
    → (a : ℤ)
    → in_window (memory_bytes_window_from_args args).lo (memory_bytes_window_from_args args).hi a
      ≡ false
unfolding memory_bytes_window_from_args
empty_window args h a = closed (fold_constraints args whole_window) h
  where
    closed :
        (w : MemoryBytesWindow)
        → (closed_window w).empty ≡ true
        → in_window (closed_window w).lo (closed_window w).hi a ≡ false
    closed w k = ground arith

full_scan-InInt64 :
    (bulk : Bulk) (last_error : Bytes)
    → All Listed bulk.read_instructions.1
    → All
        (λ row. InInt64 row.address)
        (instruction_generator (default_listing bulk last_error) none).rows
unfolding instruction_generator generator_read cut_window
full_scan-InInt64 bulk last_error h = elim (Bool-cases bulk.read_instructions.0) [
  | inr i ↦ rw i tt
  | inl i ↦ elim (Bool-cases bulk.read_functions.0) [
    | inr f ↦ rw (i, f) tt
    | inl f ↦
        rw (i, f, assign_instruction_func_addrs_lem bulk.read_functions.1 bulk.read_instructions.1)
          (listed_map bulk.read_functions.1 bulk.read_instructions.1 h)
  ]
]
  where
    listed_map :
        (funcs : List FunctionRow) (rows : List InstructionRow)
        → All Listed rows
        → All (λ row. InInt64 row.address) (map (scanned funcs) rows)
    listed_map funcs [] k = tt
    listed_map funcs (x ∷ rows) k = (k.0.0, listed_map funcs rows k.1)

-- A scan with constraints on the address gives the rows of the full scan whose address meets them
-- all, in their order, where every instruction's address and length are `int64_t` values. An
-- instruction that only reaches into the window is not among them.
pub instruction_generator_lem :
    (bulk : Bulk) (last_error : Bytes) (args : List ConstraintArg)
    → All Listed bulk.read_instructions.1
    → (instruction_generator
        (default_listing bulk last_error)
        (some (memory_bytes_window_from_args args))).rows
      ≡ (select
          (λ row. meets_all row.address args)
          (instruction_generator (default_listing bulk last_error) none).rows)
instruction_generator_lem bulk last_error args h =
    let w = memory_bytes_window_from_args args in
    window_rows bulk last_error w h (empty_window args)
    ∙ select_congr (λ row. in_window w.lo w.hi row.address) (λ row. meets_all row.address args)
        (instruction_generator (default_listing bulk last_error) none).rows
        (All-imp (λ row. InInt64 row.address)
          (λ row. in_window w.lo w.hi row.address ≡ meets_all row.address args)
          (λ row k. memory_bytes_window_from_args_lem row.address args k)
          (instruction_generator (default_listing bulk last_error) none).rows
          (full_scan-InInt64 bulk last_error h))
