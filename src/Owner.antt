-- ===== src/Owner.antt =====
-- Which function owns an address: `containing_func_addr`, and the sorted sweeps
-- `assign_instruction_func_addrs` and `assign_operand_func_addrs` of src/lib/src/source.cpp. Sums of
-- addresses are exact: the code's own would overflow, which C++ leaves undefined.
pub mod Agree
pub mod Holds
use ghidrasql.Prelude.{
  ℕ, suc, ℤ, pos, ◌+ℤ◌, ltb_ℤ, leb_ℤ, max_ℤ, Bool, true, false, not, ◌&&◌, ◌||◌, Option, none, some,
  List, [], ◌∷◌, map, reverse, if◌then◌else◌, take, sort_by,
}
use ghidrasql.Model.{FunctionRow, InstructionRow, InstructionOperandRow}

unfoldable pub function_body_end : FunctionRow → ℤ
function_body_end fn =
    if ltb_ℤ fn.address fn.end_ea then fn.end_ea else fn.address +ℤ max_ℤ fn.size (pos 1)

-- The loop of `containing_func_addr`: `best`, `best_start` and `found`.
unfoldable pub containing_loop : ℤ → List FunctionRow → ℤ → ℤ → Bool → ℤ
unfolding function_body_end
containing_loop addr [] best best_start found = if found then best else pos 0
containing_loop addr (fn ∷ funcs) best best_start found =
    let better =
      leb_ℤ fn.address addr
      && ltb_ℤ addr (function_body_end fn)
      && (not found || ltb_ℤ best_start fn.address) in
    containing_loop addr funcs (if better then fn.address else best)
      (if better then fn.address else best_start) (if better then true else found)

unfoldable pub containing_func_addr : List FunctionRow → ℤ → ℤ
unfolding containing_loop
containing_func_addr funcs addr = containing_loop addr funcs (pos 0) (pos 0) false

pub record FuncSpan : Type 0 where
  pub start : ℤ
  pub end : ℤ

unfoldable pub func_span : FunctionRow → FuncSpan
unfolding function_body_end
func_span fn = record { start = fn.address; end = function_body_end fn }

unfoldable pub span_before : FuncSpan → FuncSpan → Bool
span_before a b = ltb_ℤ a.start b.start

unfoldable pub build_spans : List FunctionRow → List FuncSpan
unfolding func_span span_before sort_by
build_spans funcs = sort_by span_before (map func_span funcs)

-- `std::upper_bound`: how many spans start at or before the address.
unfoldable pub spans_until : ℤ → List FuncSpan → ℕ
spans_until addr [] = 0
spans_until addr (s ∷ spans) = if ltb_ℤ addr s.start then 0 else suc (spans_until addr spans)

-- The walk back from `it`, over the spans in front of it, the last one first.
unfoldable pub walk_back : ℤ → List FuncSpan → Option ℤ
walk_back addr [] = none
walk_back addr (s ∷ spans) = if ltb_ℤ addr s.end then some s.start else walk_back addr spans

-- `func_addr`, which stays 0 where the walk finds no span.
abbrev pub or_zero : Option ℤ → ℤ
or_zero none = pos 0
or_zero (some x) = x

unfoldable pub owner : List FuncSpan → ℤ → ℤ
unfolding spans_until walk_back
owner spans addr = or_zero (walk_back addr (reverse (take (spans_until addr spans) spans)))

pub owned : List FuncSpan → InstructionRow → InstructionRow
unfolding owner
owned spans insn = record insn { func_addr = owner spans insn.address }

pub assign_instruction_func_addrs : List FunctionRow → List InstructionRow → List InstructionRow
unfolding build_spans owned
assign_instruction_func_addrs funcs [] = []
assign_instruction_func_addrs funcs (insn ∷ instructions) =
    map (owned (build_spans funcs)) (insn ∷ instructions)

pub owned_operand : List FuncSpan → InstructionOperandRow → InstructionOperandRow
unfolding owner
owned_operand spans op = record op { func_addr = owner spans op.address }

pub assign_operand_func_addrs :
    List FunctionRow → List InstructionOperandRow → List InstructionOperandRow
unfolding build_spans owned_operand
assign_operand_func_addrs funcs [] = []
assign_operand_func_addrs funcs (op ∷ operands) =
    map (owned_operand (build_spans funcs)) (op ∷ operands)
