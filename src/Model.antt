-- ===== src/Model.antt =====
-- The rows of src/lib/include/ghidrasql/source.hpp that the other modules read or build. A
-- `std::string` is a list of bytes, an `int64_t` a signed integer, and an `int` that only counts or
-- tests a number of its own range.
use ghidrasql.Prelude.{ℕ, ℤ, Bytes, Bool, List}

pub record FunctionRow : Type 0 where
  pub address : ℤ
  pub name : Bytes
  pub size : ℤ
  pub end_ea : ℤ
  pub flags : ℤ
  pub namespace_name : Bytes
  pub signature : Bytes
  pub param_count : ℤ

pub record SegmentRow : Type 0 where
  pub start_ea : ℤ
  pub end_ea : ℤ
  pub name : Bytes
  pub segment_class : Bytes
  pub perm : ℕ
  pub bitness : ℕ

pub record MemoryBlockRow : Type 0 where
  pub start_ea : ℤ
  pub end_ea : ℤ
  pub name : Bytes
  pub block_class : Bytes
  pub perm : ℕ
  pub bitness : ℕ
  pub size : ℤ
  pub is_read : ℕ
  pub is_write : ℕ
  pub is_exec : ℕ
  pub is_initialized : ℕ

pub record MemoryByteRow : Type 0 where
  pub address : ℤ
  pub value : ℤ
  pub segment_name : Bytes
  pub func_addr : ℤ
  pub source_kind : Bytes
  pub item_addr : ℤ
  pub item_offset : ℤ
  pub is_printable : ℕ
  pub ascii : Bytes
  pub is_initialized : ℕ

pub record StringRow : Type 0 where
  pub address : ℤ
  pub length : ℤ
  pub type : Bytes
  pub encoding : Bytes
  pub content : Bytes

pub record XrefRow : Type 0 where
  pub from_ea : ℤ
  pub to_ea : ℤ
  pub kind : Bytes
  pub is_code : ℕ
  pub is_data : ℕ

pub record CallEdgeRow : Type 0 where
  pub src_func_addr : ℤ
  pub src_func_name : Bytes
  pub call_site : ℤ
  pub dst_addr : ℤ
  pub dst_func_addr : ℤ
  pub dst_func_name : Bytes
  pub kind : Bytes

pub record InstructionRow : Type 0 where
  pub address : ℤ
  pub mnemonic : Bytes
  pub operands : Bytes
  pub disasm : Bytes
  pub size : ℤ
  pub bytes : Bytes
  pub func_addr : ℤ

pub record DataItemRow : Type 0 where
  pub address : ℤ
  pub name : Bytes
  pub data_type : Bytes
  pub size : ℤ
  pub value_repr : Bytes
  pub segment_name : Bytes
  pub is_string : ℕ
  pub is_initialized : ℕ

pub record InstructionOperandRow : Type 0 where
  pub address : ℤ
  pub func_addr : ℤ
  pub operand_index : ℤ
  pub text : Bytes
  pub type_name : Bytes
  pub ref_type : Bytes

pub record SymbolRow : Type 0 where
  pub address : ℤ
  pub name : Bytes
  pub symbol_kind : Bytes
  pub namespace_name : Bytes
  pub is_primary : ℕ
  pub is_external : ℕ
  pub is_external_entry_point : ℕ

pub record BlockRow : Type 0 where
  pub func_addr : ℤ
  pub start_ea : ℤ
  pub end_ea : ℤ
  pub in_degree : ℤ
  pub out_degree : ℤ

pub record FunctionChunkRow : Type 0 where
  pub func_addr : ℤ
  pub chunk_id : Bytes
  pub start_ea : ℤ
  pub end_ea : ℤ
  pub chunk_kind : Bytes
  pub is_primary : ℕ

pub record TailCallRow : Type 0 where
  pub src_func_addr : ℤ
  pub call_site : ℤ
  pub dst_addr : ℤ
  pub dst_func_addr : ℤ
  pub tail_kind : Bytes

pub record XrefIndexRow : Type 0 where
  pub from_ea : ℤ
  pub to_ea : ℤ
  pub src_func_addr : ℤ
  pub dst_func_addr : ℤ
  pub kind : Bytes
  pub is_code : ℕ
  pub is_data : ℕ

pub record FunctionMetricRow : Type 0 where
  pub func_addr : ℤ
  pub func_name : Bytes
  pub size : ℤ
  pub instruction_count : ℤ
  pub block_count : ℤ
  pub edge_count : ℤ
  pub cyclomatic_complexity : ℤ
  pub call_in_count : ℤ
  pub call_out_count : ℤ
  pub string_ref_count : ℤ
  pub token_count : ℤ

pub record DecompLvarRow : Type 0 where
  pub func_addr : ℤ
  pub local_id : Bytes
  pub name : Bytes
  pub type : Bytes
  pub storage : Bytes
  pub role : Bytes
  pub func_name : Bytes

pub record CommentRow : Type 0 where
  pub address : ℤ
  pub comment : Bytes
  pub repeatable : ℕ
  pub source : Bytes

pub record StackVarRow : Type 0 where
  pub func_addr : ℤ
  pub var_id : Bytes
  pub name : Bytes
  pub var_type : Bytes
  pub stack_offset : ℤ
  pub size : ℤ
  pub is_param : ℕ

pub record FunctionParamRow : Type 0 where
  pub func_addr : ℤ
  pub ordinal : ℤ
  pub param_name : Bytes
  pub param_type : Bytes
  pub storage : Bytes
  pub is_user_named : ℕ

pub record FunctionFrameRow : Type 0 where
  pub func_addr : ℤ
  pub frame_size : ℤ
  pub arg_size : ℤ
  pub local_size : ℤ
  pub saved_reg_size : ℤ
  pub stack_base_reg : Bytes
  pub has_frame_pointer : ℤ
  pub saved_reg_size_known : Bool

pub record PseudocodeRow : Type 0 where
  pub func_addr : ℤ
  pub func_name : Bytes
  pub text : Bytes
  pub is_stale : ℕ
  pub prototype : Bytes
  pub completed : ℕ
  pub is_fallback : ℕ
  pub error_message : Bytes

pub record DecompTokenRow : Type 0 where
  pub func_addr : ℤ
  pub token_index : ℤ
  pub text : Bytes
  pub kind : Bytes
  pub line : ℤ
  pub column : ℤ
  pub var_name : Bytes
  pub var_type : Bytes
  pub var_storage : Bytes

pub record DecompilationDetail : Type 0 where
  pub func_addr : ℤ
  pub func_name : Bytes
  pub prototype : Bytes
  pub pseudocode : Bytes
  pub completed : Bool
  pub is_fallback : Bool
  pub error_message : Bytes
  pub locals : List DecompLvarRow
  pub tokens : List DecompTokenRow

pub record BreakpointRow : Type 0 where
  pub address : ℤ
  pub enabled : ℕ
  pub type : ℤ
  pub size : ℤ
  pub flags : ℤ
  pub pass_count : ℤ
  pub condition : Bytes
  pub group : Bytes
  pub loc_type : ℤ

pub record BookmarkRow : Type 0 where
  pub address : ℤ
  pub type : Bytes
  pub category : Bytes
  pub comment : Bytes
