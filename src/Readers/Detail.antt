-- ===== src/Readers/Detail.antt =====
-- The decompilation of a function that `Source::decompile_detail` of src/lib/src/source.cpp puts
-- together from a source's rows.
pub mod Own
use ghidrasql.Prelude.{
  ℤ, eqb_ℤ, true, false, not, ◌==◌, Option, none, some, [], if◌then◌else◌, select, map, is_empty,
  Bytes,
}
use ghidrasql.Model.{FunctionRow, PseudocodeRow, DecompLvarRow, DecompilationDetail}
use ghidrasql.Readers.{Bulk, find_if, read_function_at}

-- `pseudo_it`, with `none` for the end.
unfoldable pub pseudo_row : Bulk → ℤ → Option PseudocodeRow
pseudo_row bulk address =
    if bulk.read_pseudocode.0
    then find_if (λ row. eqb_ℤ row.func_addr address) bulk.read_pseudocode.1
    else none

-- `text`, where `decompiled` is what `decompile(address)` gives.
unfoldable pub detail_text : Bytes → Option PseudocodeRow → Bytes
detail_text decompiled none = decompiled
detail_text decompiled (some row) = if is_empty decompiled then row.text else decompiled

-- `detail`, before the function and the lists are read.
unfoldable pub detail_start : ℤ → Bytes → Option PseudocodeRow → DecompilationDetail
detail_start address text none = record {
  func_addr = address;
  func_name = [];
  prototype = [];
  pseudocode = text;
  completed = true;
  is_fallback = false;
  error_message = [];
  locals = [];
  tokens = [];
}
detail_start address text (some row) = record {
  func_addr = address;
  func_name = row.func_name;
  prototype = row.prototype;
  pseudocode = text;
  completed = not (row.completed == 0);
  is_fallback = not (row.is_fallback == 0);
  error_message = row.error_message;
  locals = [];
  tokens = [];
}

unfoldable pub with_function : Option FunctionRow → DecompilationDetail → DecompilationDetail
with_function none detail = detail
with_function (some function) detail = record detail {
  func_name = function.name;
  prototype = function.signature;
}

unfoldable pub mapped_local : Bytes → DecompLvarRow → DecompLvarRow
mapped_local func_name local = record local {
  func_name = if is_empty local.func_name then func_name else local.func_name;
}

unfoldable pub with_locals : Bulk → ℤ → DecompilationDetail → DecompilationDetail
unfolding mapped_local
with_locals bulk address detail =
    if bulk.read_decomp_lvars.0
    then record detail {
      locals =
          map (mapped_local detail.func_name)
            (select (λ local. eqb_ℤ local.func_addr address) bulk.read_decomp_lvars.1);
    }
    else detail

unfoldable pub with_tokens : Bulk → ℤ → DecompilationDetail → DecompilationDetail
with_tokens bulk address detail =
    if bulk.read_decomp_tokens.0
    then record detail {
      tokens = select (λ token. eqb_ℤ token.func_addr address) bulk.read_decomp_tokens.1;
    }
    else detail

-- `decompiled` is what the source's `decompile` gives for the address.
unfoldable pub decompile_detail : Bytes → Bulk → ℤ → Option DecompilationDetail
unfolding pseudo_row detail_text detail_start with_function with_locals with_tokens read_function_at
decompile_detail decompiled bulk address =
    let text = detail_text decompiled (pseudo_row bulk address) in
    if is_empty text
    then none
    else some (
        with_tokens bulk address (
          with_locals bulk address (
            with_function (read_function_at bulk address)
              (detail_start address text (pseudo_row bulk address)))))
