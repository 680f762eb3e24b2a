-- ===== src/Examples/Addresses.antt =====
-- The theorems on addresses, spans and ranges at concrete inputs.
use ghidrasql.Prelude.{
  ℕ, ℤ, pos, ◌+ℤ◌, ◌≤ℤ◌, ◌<ℤ◌, true, List, [], ◌∷◌, map, ◌≡◌, ◌↔◌, inr, arith, codes,
}
use ghidrasql.Model.{FunctionRow, InstructionRow, InstructionOperandRow}
use ghidrasql.Memory.Words.{int64_max}
use ghidrasql.Memory.Spans.{byte_span_intersects_range, byte_span_intersects_range_iff}
use ghidrasql.Ranges.{
  function_range, build_function_ranges, range_function_for_address, function_for_address,
}
use ghidrasql.Ranges.Sorted.{AllApart}
use ghidrasql.Ranges.Lookup.{range_function_for_address_lem}
use ghidrasql.Owner.{assign_instruction_func_addrs}
use ghidrasql.Owner.Agree.{scanned, assign_instruction_func_addrs_lem}

meets_example : (byte_span_intersects_range (pos 4) (pos 4) (pos 7) (pos 9) ≡ true) ↔ (
    (a : ℤ) × (pos 4 ≤ℤ a) × (a <ℤ pos 4 +ℤ pos 4) × (a ≤ℤ int64_max) × (pos 7 ≤ℤ a) × (a ≤ℤ pos 9))
meets_example =
    byte_span_intersects_range_iff (pos 4) (pos 4) (pos 7) (pos 9) (omega arith, omega arith)
      (omega arith, omega arith)

abbrev function_from : ℕ → ℕ → FunctionRow
function_from start size = record {
  address = pos start;
  name = codes "f";
  size = pos size;
  end_ea = pos 0;
  flags = pos 0;
  namespace_name = [];
  signature = [];
  param_count = pos 0;
}

-- Two functions side by side, the later one first.
abbrev apart_functions : List FunctionRow
apart_functions = function_from 16 8 ∷ function_from 4 12 ∷ []

functions-AllApart : AllApart (map function_range apart_functions)
unfolding function_range ◌+ℤ◌
functions-AllApart = ((inr (omega arith), tt), (tt, tt))

lookup_example :
    range_function_for_address (build_function_ranges apart_functions) (pos 15)
    ≡ function_for_address apart_functions (pos 15)
lookup_example = range_function_for_address_lem apart_functions (pos 15) functions-AllApart

-- A function inside another one.
abbrev nested_functions : List FunctionRow
nested_functions = function_from 4 60 ∷ function_from 16 8 ∷ []

abbrev instruction_at : ℕ → InstructionRow
instruction_at address = record {
  address = pos address;
  mnemonic = codes "nop";
  operands = [];
  disasm = codes "nop";
  size = pos 1;
  bytes = codes "90";
  func_addr = pos 0;
}

abbrev two_instructions : List InstructionRow
two_instructions = instruction_at 17 ∷ instruction_at 30 ∷ []

instructions_example :
    assign_instruction_func_addrs nested_functions two_instructions
    ≡ map (scanned nested_functions) two_instructions
instructions_example = assign_instruction_func_addrs_lem nested_functions two_instructions

abbrev operand_at : ℕ → InstructionOperandRow
operand_at address = record {
  address = pos address;
  func_addr = pos 0;
  operand_index = pos 0;
  text = codes "EAX";
  type_name = codes "register";
  ref_type = [];
}
