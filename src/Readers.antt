-- ===== src/Readers.antt =====
-- The readers of src/lib/src/source.cpp that a source has by default: each reads all the rows of one
-- kind and keeps some. A reader gives its success flag and the rows that it leaves in the vector.
pub mod Keeps
pub mod Detail
use ghidrasql.Prelude.{
  ℤ, pos, leb_ℤ, eqb_ℤ, Bool, true, false, not, ◌&&◌, ◌||◌, Option, none, some, List, [], ◌∷◌,
  if◌then◌else◌, any, select,
}
use ghidrasql.Model.{
  FunctionRow, SymbolRow, StringRow, XrefRow, CallEdgeRow, DataItemRow, FunctionFrameRow,
  StackVarRow, FunctionParamRow, InstructionRow, InstructionOperandRow, CommentRow, BreakpointRow,
  BookmarkRow, PseudocodeRow, DecompLvarRow, DecompTokenRow,
}
use ghidrasql.Memory.Spans.{
  string_byte_span, instruction_byte_span, data_item_byte_span, byte_span_intersects_range,
}
use ghidrasql.Owner.{containing_func_addr}

-- What a source gives to the readers of all the rows.
pub record Bulk : Type 0 where
  pub read_functions : Bool × List FunctionRow
  pub read_symbols : Bool × List SymbolRow
  pub read_strings : Bool × List StringRow
  pub read_xrefs : Bool × List XrefRow
  pub read_call_edges : Bool × List CallEdgeRow
  pub read_data_items : Bool × List DataItemRow
  pub read_stack_frames : Bool × List FunctionFrameRow
  pub read_stack_vars : Bool × List StackVarRow
  pub read_function_params : Bool × List FunctionParamRow
  pub read_instructions : Bool × List InstructionRow
  pub read_instruction_operands : Bool × List InstructionOperandRow
  pub read_comments : Bool × List CommentRow
  pub read_breakpoints : Bool × List BreakpointRow
  pub read_bookmarks : Bool × List BookmarkRow
  pub read_pseudocode : Bool × List PseudocodeRow
  pub read_decomp_lvars : Bool × List DecompLvarRow
  pub read_decomp_tokens : Bool × List DecompTokenRow

-- The rows that a reader by default keeps, or none and a failure where the bulk read fails.
abbrev pub filtered : {A : Type 0} → (A → Bool) → Bool × List A → Bool × List A
filtered keep all = if all.0 then (true, select keep all.1) else (false, [])

-- The first row that passes a test.
abbrev pub find_if : {A : Type 0} → (A → Bool) → List A → Option A
find_if p [] = none
find_if p (x ∷ xs) = if p x then some x else find_if p xs

-- The loop that fills `callers`, which is the list of the edges that name a caller and a callee.
unfoldable pub calls_out : ℤ → CallEdgeRow → Bool
calls_out address edge =
    not (eqb_ℤ edge.src_func_addr (pos 0))
    && (not (eqb_ℤ edge.dst_func_addr (pos 0)) || not (eqb_ℤ edge.dst_addr (pos 0)))
    && eqb_ℤ edge.src_func_addr address

unfoldable pub read_leaf_functions : Bulk → Bool × List FunctionRow
unfolding calls_out
read_leaf_functions bulk =
    if bulk.read_functions.0 && bulk.read_call_edges.0
    then (
      true,
      select (λ function. not (any (calls_out function.address) bulk.read_call_edges.1))
          bulk.read_functions.1,
    )
    else (false, [])

-- `none` for a reader that fails.
unfoldable pub read_function_at : Bulk → ℤ → Option FunctionRow
read_function_at bulk address =
    if bulk.read_functions.0
    then find_if (λ row. eqb_ℤ row.address address) bulk.read_functions.1
    else none

unfoldable pub read_instruction_at : Bulk → ℤ → Option InstructionRow
read_instruction_at bulk address =
    if bulk.read_instructions.0
    then find_if (λ row. eqb_ℤ row.address address) bulk.read_instructions.1
    else none

unfoldable pub read_symbols_at : Bulk → ℤ → Bool × List SymbolRow
read_symbols_at bulk address = filtered (λ row. eqb_ℤ row.address address) bulk.read_symbols

unfoldable pub read_strings_at : Bulk → ℤ → Bool × List StringRow
read_strings_at bulk address = filtered (λ row. eqb_ℤ row.address address) bulk.read_strings

unfoldable pub read_strings_in_range : Bulk → ℤ → ℤ → Bool × List StringRow
unfolding string_byte_span
read_strings_in_range bulk start_address end_address =
    filtered
      (λ row.
        byte_span_intersects_range row.address (string_byte_span row) start_address end_address)
      bulk.read_strings

unfoldable pub read_xrefs_from : Bulk → ℤ → Bool × List XrefRow
read_xrefs_from bulk from_address = filtered (λ row. eqb_ℤ row.from_ea from_address) bulk.read_xrefs

unfoldable pub read_xrefs_to : Bulk → ℤ → Bool × List XrefRow
read_xrefs_to bulk to_address = filtered (λ row. eqb_ℤ row.to_ea to_address) bulk.read_xrefs

unfoldable pub read_xrefs_from_function : Bulk → ℤ → Bool × List XrefRow
unfolding containing_func_addr
read_xrefs_from_function bulk function_address =
    if bulk.read_xrefs.0 && bulk.read_functions.0
    then if any (λ fn. eqb_ℤ fn.address function_address) bulk.read_functions.1
      then (
        true,
        select
            (λ row. eqb_ℤ (containing_func_addr bulk.read_functions.1 row.from_ea) function_address)
            bulk.read_xrefs.1,
      )
      else (true, [])
    else (false, [])

unfoldable pub read_call_edges_at : Bulk → ℤ → Bool × List CallEdgeRow
read_call_edges_at bulk call_site =
    filtered (λ row. eqb_ℤ row.call_site call_site) bulk.read_call_edges

unfoldable pub read_call_edges_from : Bulk → ℤ → Bool × List CallEdgeRow
read_call_edges_from bulk function_address =
    filtered (λ row. eqb_ℤ row.src_func_addr function_address) bulk.read_call_edges

unfoldable pub read_call_edges_to : Bulk → ℤ → Bool × List CallEdgeRow
read_call_edges_to bulk function_address =
    filtered (λ row. eqb_ℤ row.dst_func_addr function_address) bulk.read_call_edges

unfoldable pub read_call_edges_to_addr : Bulk → ℤ → Bool × List CallEdgeRow
read_call_edges_to_addr bulk address =
    filtered (λ row. eqb_ℤ row.dst_addr address) bulk.read_call_edges

unfoldable pub read_data_items_at : Bulk → ℤ → Bool × List DataItemRow
read_data_items_at bulk address = filtered (λ row. eqb_ℤ row.address address) bulk.read_data_items

-- `at` stands for `read_data_items_at`, which a source may override.
unfoldable pub read_data_items_in_range :
    (ℤ → Bool × List DataItemRow) → Bulk → ℤ → ℤ → Bool × List DataItemRow
unfolding data_item_byte_span
read_data_items_in_range at bulk start_address end_address =
    if eqb_ℤ start_address end_address
    then at start_address
    else filtered
        (λ row.
          byte_span_intersects_range row.address (data_item_byte_span row) start_address
            end_address)
        bulk.read_data_items

unfoldable pub read_stack_frames_in_range : Bulk → ℤ → ℤ → Bool × List FunctionFrameRow
read_stack_frames_in_range bulk start_address end_address =
    filtered (λ row. leb_ℤ start_address row.func_addr && leb_ℤ row.func_addr end_address)
      bulk.read_stack_frames

unfoldable pub read_stack_vars_in_range : Bulk → ℤ → ℤ → Bool × List StackVarRow
read_stack_vars_in_range bulk start_address end_address =
    filtered (λ row. leb_ℤ start_address row.func_addr && leb_ℤ row.func_addr end_address)
      bulk.read_stack_vars

unfoldable pub read_function_params_at : Bulk → ℤ → Bool × List FunctionParamRow
read_function_params_at bulk func_addr =
    filtered (λ row. eqb_ℤ row.func_addr func_addr) bulk.read_function_params

unfoldable pub read_instructions_in_range : Bulk → ℤ → ℤ → Bool × List InstructionRow
unfolding instruction_byte_span
read_instructions_in_range bulk start_address end_address =
    filtered
      (λ row.
        byte_span_intersects_range row.address (instruction_byte_span row) start_address
          end_address)
      bulk.read_instructions

unfoldable pub read_instruction_operands_in_range : Bulk → ℤ → ℤ → Bool × List InstructionOperandRow
read_instruction_operands_in_range bulk start_address end_address =
    filtered (λ row. leb_ℤ start_address row.address && leb_ℤ row.address end_address)
      bulk.read_instruction_operands

unfoldable pub read_comments_at : Bulk → ℤ → Bool × List CommentRow
read_comments_at bulk address = filtered (λ row. eqb_ℤ row.address address) bulk.read_comments

unfoldable pub read_comments_in_range : Bulk → ℤ → ℤ → Bool × List CommentRow
read_comments_in_range bulk start_address end_address =
    filtered (λ row. leb_ℤ start_address row.address && leb_ℤ row.address end_address)
      bulk.read_comments

unfoldable pub read_breakpoints_at : Bulk → ℤ → Bool × List BreakpointRow
read_breakpoints_at bulk address = filtered (λ row. eqb_ℤ row.address address) bulk.read_breakpoints

unfoldable pub read_bookmarks_at : Bulk → ℤ → Bool × List BookmarkRow
read_bookmarks_at bulk address = filtered (λ row. eqb_ℤ row.address address) bulk.read_bookmarks
