-- ===== src/Derive.antt =====
-- The rows that src/lib/src/entities_detail.cpp derives from a source's base rows, where the source
-- has none of its own. A reader of the source gives its success flag and the rows that it leaves in
-- the vector. A hash map is a function or the first match in a list, and a hash set a list.
pub mod Blocks
pub mod Calls
pub mod Metrics
pub mod TailCalls
pub mod Chunks
use ghidrasql.Prelude.{ℤ, Bool, List, is_empty, not, ◌&&◌, if◌then◌else◌}
use ghidrasql.Model.{
  FunctionRow, SegmentRow, MemoryBlockRow, StringRow, XrefRow, CallEdgeRow, InstructionRow,
  BlockRow,
}

pub record Source : Type 0 where
  pub read_functions : Bool × List FunctionRow
  pub read_segments : Bool × List SegmentRow
  pub read_memory_blocks : Bool × List MemoryBlockRow
  pub read_blocks : Bool × List BlockRow
  pub read_instructions : Bool × List InstructionRow
  pub read_strings : Bool × List StringRow
  pub read_xrefs : Bool × List XrefRow
  pub read_call_edges : Bool × List CallEdgeRow

-- The direct rows, if there are any, else the derived ones.
abbrev pub direct_or : {A : Type 0} → Bool × List A → List A → List A
direct_or direct derived = if direct.0 && not (is_empty direct.1) then direct.1 else derived
