-- ===== src/Derive/TailCalls.antt =====
-- `derive_tail_call_rows`.
pub mod Edges
use ghidrasql.Prelude.{
  ℤ, pos, ◌+ℤ◌, ◌-ℤ◌, ltb_ℤ, leb_ℤ, eqb_ℤ, max_ℤ, Bool, false, not, ◌&&◌, ◌||◌, Option, none, some,
  List, [], ◌∷◌, if◌then◌else◌, codes, is_empty, any,
}
use ghidrasql.Model.{FunctionRow, CallEdgeRow, TailCallRow}
use ghidrasql.Derive.{Source}

-- The lookup in `fn_by_addr`, in which the last function of an address stays.
pub function_at : List FunctionRow → ℤ → Option FunctionRow
function_at [] address = none
function_at (fn ∷ functions) address = elim (function_at functions address) [
  | none ↦ if eqb_ℤ fn.address address then some fn else none
  | some later ↦ some later
]

pub near_end : FunctionRow → CallEdgeRow → Bool
near_end src_fn edge =
    let fn_end =
      if ltb_ℤ src_fn.address src_fn.end_ea
      then src_fn.end_ea
      else src_fn.address +ℤ max_ℤ src_fn.size (pos 1) in
    leb_ℤ (fn_end -ℤ pos 8) edge.call_site

pub tail_call_row : CallEdgeRow → TailCallRow
tail_call_row edge = record {
  src_func_addr = edge.src_func_addr;
  call_site = edge.call_site;
  dst_addr = edge.dst_addr;
  dst_func_addr = edge.dst_func_addr;
  tail_kind = codes "tail";
}

-- Whether an edge leaves its function, near that function's end.
pub is_tail : List FunctionRow → CallEdgeRow → Bool
unfolding function_at near_end
is_tail functions edge = elim (function_at functions edge.src_func_addr) [
  | none ↦ false
  | some src_fn ↦
      near_end src_fn edge
      && (not (eqb_ℤ edge.dst_func_addr (pos 0))
          && not (eqb_ℤ edge.dst_func_addr edge.src_func_addr))
]

pub same_site : CallEdgeRow → ℤ × ℤ → Bool
same_site edge key = eqb_ℤ edge.src_func_addr key.0 && eqb_ℤ edge.call_site key.1

-- The first loop, with `seen`.
pub tail_loop : List FunctionRow → List (ℤ × ℤ) → List CallEdgeRow → List TailCallRow
unfolding is_tail same_site tail_call_row
tail_loop functions seen [] = []
tail_loop functions seen (edge ∷ edges) =
    let skip = tail_loop functions seen edges in
    let more = tail_loop functions ((edge.src_func_addr, edge.call_site) ∷ seen) edges in
    if not (is_tail functions edge)
    then skip
    else if any (same_site edge) seen
    then skip
    else tail_call_row edge ∷ more

-- The second loop, which breaks after its first row.
pub first_interproc : List CallEdgeRow → List TailCallRow
unfolding tail_call_row
first_interproc [] = []
first_interproc (edge ∷ edges) =
    let rest = first_interproc edges in
    if eqb_ℤ edge.src_func_addr (pos 0)
      || eqb_ℤ edge.dst_func_addr (pos 0)
      || eqb_ℤ edge.src_func_addr edge.dst_func_addr
    then rest
    else tail_call_row edge ∷ []

pub derive_tail_call_rows : Source → List TailCallRow
unfolding tail_loop first_interproc
derive_tail_call_rows source =
    let out = tail_loop source.read_functions.1 [] source.read_call_edges.1 in
    if is_empty out then first_interproc source.read_call_edges.1 else out
