-- ===== src/Derive/Calls.antt =====
-- `derive_xref_index_rows` and `derive_call_edge_rows`.
pub mod Once
use ghidrasql.Prelude.{
  ℤ, pos, eqb_ℤ, Bool, true, false, ◌&&◌, List, [], ◌∷◌, map, ◌==◌, if◌then◌else◌, Bytes, codes,
  eqb, is_empty, any,
}
use ghidrasql.Model.{FunctionRow, XrefRow, XrefIndexRow, CallEdgeRow}
use ghidrasql.Ranges.{FunctionRange, build_function_ranges, range_function_for_address}
use ghidrasql.Derive.{Source, direct_or}

-- `dst_func_addr`: the function that holds the target, or the target itself.
abbrev target_function : List FunctionRange → ℤ → ℤ
target_function ranges to_ea =
    let dst = range_function_for_address ranges to_ea in if eqb_ℤ dst (pos 0) then to_ea else dst

pub xref_index_row : List FunctionRange → XrefRow → XrefIndexRow
xref_index_row ranges x = record {
  from_ea = x.from_ea;
  to_ea = x.to_ea;
  src_func_addr = range_function_for_address ranges x.from_ea;
  dst_func_addr = target_function ranges x.to_ea;
  kind = x.kind;
  is_code = x.is_code;
  is_data = x.is_data;
}

pub derive_xref_index_rows : Source → List XrefIndexRow
unfolding xref_index_row
derive_xref_index_rows source =
    map (xref_index_row (build_function_ranges source.read_functions.1)) source.read_xrefs.1

-- The lookup in `function_names`, in which the first function of an address stays (`emplace`); a
-- missing name leaves the row's empty.
function_name : List FunctionRow → ℤ → Bytes
function_name [] address = []
function_name (fn ∷ functions) address =
    if eqb_ℤ fn.address address then fn.name else function_name functions address

pub record CallEdgeKey : Type 0 where
  pub src : ℤ
  pub site : ℤ
  pub dst : ℤ
  pub kind : Bytes

abbrev pub key_eqb : CallEdgeKey → CallEdgeKey → Bool
key_eqb a b = eqb_ℤ a.src b.src && eqb_ℤ a.site b.site && eqb_ℤ a.dst b.dst && eqb a.kind b.kind

pub call_edge_row : List FunctionRange → List FunctionRow → XrefRow → CallEdgeRow
unfolding function_name
call_edge_row ranges functions x =
    let src = range_function_for_address ranges x.from_ea in
    let dst = target_function ranges x.to_ea in
    record {
      src_func_addr = src;
      src_func_name = function_name functions src;
      call_site = x.from_ea;
      dst_addr = x.to_ea;
      dst_func_addr = dst;
      dst_func_name = function_name functions dst;
      kind = if is_empty x.kind then codes "call" else x.kind;
    }

abbrev pub edge_key : CallEdgeRow → CallEdgeKey
edge_key row = record {
  src = row.src_func_addr;
  site = row.call_site;
  dst = row.dst_func_addr;
  kind = row.kind;
}

-- The loop over the references, with `seen`.
pub call_loop :
    List FunctionRange → List FunctionRow → List CallEdgeKey → List XrefRow → List CallEdgeRow
call_loop ranges functions seen [] = []
call_loop ranges functions seen (x ∷ xrefs) =
    let row = call_edge_row ranges functions x in
    let skip = call_loop ranges functions seen xrefs in
    let more = call_loop ranges functions (edge_key row ∷ seen) xrefs in
    if x.is_code == 0 then skip else if any (key_eqb (edge_key row)) seen then skip else row ∷ more

pub derive_call_edge_rows : Source → List CallEdgeRow
unfolding call_loop
derive_call_edge_rows source =
    let functions = source.read_functions.1 in
    direct_or source.read_call_edges
      (call_loop (build_function_ranges functions) functions [] source.read_xrefs.1)
