-- ===== src/Lib.antt =====
-- Verification of ghidrasql, an SQL front end to Ghidra programs. A source (src/lib/src/source.cpp,
-- src/lib/include/ghidrasql/source.hpp) reads rows of a program: functions, segments, instructions,
-- references. src/lib/src/entities_detail.cpp derives further rows from them, among them a stream of
-- memory bytes; src/lib/src/functions.cpp has the text, search and type functions that SQL calls;
-- src/lib/src/database.cpp runs statements and scripts and decides when cached tables are stale; and
-- src/lib/src/commands.cpp answers the dot commands of the shell.
--
-- Prelude: Boolean tests, lists, integers, strings as lists of bytes, sorting.
-- Model: the row structures of src/lib/include/ghidrasql/source.hpp.
-- Text, Search, Types: the helpers of src/lib/src/functions.cpp (normalize_text, squash_ws, tokenize,
--   join_tokens; all_query_terms_match, query_score, search_snippet; type_strip_cv, type_is_pointer,
--   type_family) and the type tests of src/lib/src/entities_detail.cpp.
-- Params: split_csv_params, infer_param_name, parse_return_type_from_prototype of
--   src/lib/src/entities_detail.cpp, and split_pattern_list of src/cli/request_params.hpp.
-- Ranges: build_function_ranges, build_segment_ranges and the lookups by address.
-- Owner: containing_func_addr, assign_instruction_func_addrs, assign_operand_func_addrs of
--   src/lib/src/source.cpp.
-- Memory: the class MemoryBytesGenerator of src/lib/src/entities_detail.cpp: its address arithmetic
--   (Words), the spans of rows (Spans), build_items and items_intersecting (Items), build_regions
--   (Regions), advance_cursor_range (Pages), and build_chunk with the rows of one page (Chunk). Members of the class that a method reads are arguments, and the vectors that it
--   fills are results.
-- Derive: the derive_*_rows functions, over a record of what the source's readers give. Hash maps
--   are functions or first matches in a list, and hash sets are lists.
-- Readers: the readers that a source of src/lib/src/source.cpp has by default, over a record of its
--   bulk reads, and decompile_detail (Detail). A reader gives its flag and its rows.
-- Tables: of src/lib/src/entities_tables.cpp, the row ids that pack an address and a slot (RowIds), the
--   window that constraints on an address fold into (Window), and the scans and filters of the tables
--   instructions and instruction_operands (Instructions), with the message that a scan reports.
-- ByteSearch: the table byte_search of the same file: byte_search_parse and byte_search_hex (Pattern),
--   make_byte_search_generator and init (Regions), and the class ByteSearchGenerator (Scan), its members
--   as a record. read_bytes is a member of the record ByteSource, an argument of every operation.
-- Commands: trim and handle_command, over callbacks that act on a session's state.
-- Engine: the class QueryEngine::Impl of src/lib/src/database.cpp, its members as a record. The source,
--   the registry of tables and SQLite are the record Services, an argument of every operation.
-- Examples: the theorems at concrete inputs.
--
-- Loops are recursions on the vector or the string that they walk. Some run on fuel: the counting
-- loop of query_score, on one more than the length of the text, which is enough since each round moves
-- on by a term that is not empty; to_dec, on one more than the number; and the loops of the byte search,
-- for which more than the candidates and regions that are left is enough, since each round consumes one. std::sort is
-- an insertion sort, which leaves equal elements in their order. An int64_t is an integer; the modular
-- sums that the code writes through uint64_t are written out, and the signed sums whose overflow C++
-- leaves undefined are exact, but for those of the row ids, where an overflow is none.
--
-- Not modelled: the registration of virtual tables and views and the columns of their rows, the sources that talk to Ghidra, the
-- HTTP and MCP servers, the command line, the Huffman table of supporters, and
-- the methods init, next and load_next_chunk of the memory byte stream.
pub mod Prelude
pub mod Model
pub mod Text
pub mod Search
pub mod Ranges
pub mod Owner
pub mod Memory
pub mod Derive
pub mod Types
pub mod Params
pub mod Commands
pub mod Engine
pub mod Tables
pub mod Readers
pub mod ByteSearch
pub mod Examples
