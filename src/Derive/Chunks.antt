-- ===== src/Derive/Chunks.antt =====
-- `derive_function_chunk_rows`.
use ghidrasql.Prelude.{
  ℕ, suc, ℤ, pos, +ℤ_parts, ◌+ℤ◌, ◌<ℤ◌, ltb_ℤ, eqb_ℤ, max_ℤ, Bool, true, ◌||◌, ◌&&◌, ◌∙◌, ap, List,
  [], ◌∷◌, ◌++◌, ◌≡◌, arith, ◌==◌, if◌then◌else◌, codes, to_dec, sort_by, select, any, any-append,
  All, All-imp, All-append,
}
use ghidrasql.Model.{FunctionRow, BlockRow, FunctionChunkRow}
use ghidrasql.Derive.{Source}
use ghidrasql.Derive.Blocks.{derive_block_rows}

block_before : BlockRow → BlockRow → Bool
block_before a b = ltb_ℤ a.start_ea b.start_ea

-- `blocks_by_func[fn.address]`, sorted.
function_blocks : List BlockRow → ℤ → List BlockRow
unfolding block_before sort_by
function_blocks blocks func_addr =
    sort_by block_before (select (λ b. eqb_ℤ b.func_addr func_addr) blocks)

whole_chunk : FunctionRow → FunctionChunkRow
whole_chunk fn = record {
  func_addr = fn.address;
  chunk_id = codes "chunk0";
  start_ea = fn.address;
  end_ea = if ltb_ℤ fn.address fn.end_ea then fn.end_ea else fn.address +ℤ max_ℤ fn.size (pos 1);
  chunk_kind = codes "range";
  is_primary = 1;
}

block_chunk : FunctionRow → ℕ → BlockRow → FunctionChunkRow
block_chunk fn i b = record {
  func_addr = fn.address;
  chunk_id = codes "chunk" ++ to_dec i;
  start_ea = b.start_ea;
  end_ea = if ltb_ℤ b.start_ea b.end_ea then b.end_ea else b.start_ea +ℤ pos 1;
  chunk_kind = codes "block";
  is_primary = if i == 0 || eqb_ℤ b.start_ea fn.address then 1 else 0;
}

-- The loop over the blocks of a function, from index `i` on.
chunk_loop : FunctionRow → ℕ → List BlockRow → List FunctionChunkRow
unfolding block_chunk
chunk_loop fn i [] = []
chunk_loop fn i (b ∷ blocks) = block_chunk fn i b ∷ chunk_loop fn (suc i) blocks

function_chunks : FunctionRow → List BlockRow → List FunctionChunkRow
unfolding whole_chunk chunk_loop
function_chunks fn [] = whole_chunk fn ∷ []
function_chunks fn (b ∷ blocks) = chunk_loop fn 0 (b ∷ blocks)

-- The loop over the functions.
chunks_loop : List BlockRow → List FunctionRow → List FunctionChunkRow
unfolding function_blocks function_chunks
chunks_loop blocks [] = []
chunks_loop blocks (fn ∷ functions) =
    function_chunks fn (function_blocks blocks fn.address) ++ chunks_loop blocks functions

pub derive_function_chunk_rows : Source → List FunctionChunkRow
unfolding chunks_loop
derive_function_chunk_rows source = chunks_loop (derive_block_rows source) source.read_functions.1

-- Whether a chunk is the primary one of a function.
abbrev pub primary_of : ℤ → FunctionChunkRow → Bool
primary_of func_addr row = eqb_ℤ row.func_addr func_addr && row.is_primary == 1

abbrev pub Proper : FunctionChunkRow → Type 0
Proper row = row.start_ea <ℤ row.end_ea

chunk_loop-Proper :
    (fn : FunctionRow) (i : ℕ) (blocks : List BlockRow) → All Proper (chunk_loop fn i blocks)
unfolding chunk_loop block_chunk
chunk_loop-Proper fn i [] = tt
chunk_loop-Proper fn i (b ∷ blocks) = (proper b, chunk_loop-Proper fn (suc i) blocks)
  where
    proper : (c : BlockRow) → Proper (block_chunk fn i c)
    proper c = let next = +ℤ_parts c.start_ea (pos 1) in ground arith

function_chunks-Proper :
    (fn : FunctionRow) (blocks : List BlockRow) → All Proper (function_chunks fn blocks)
unfolding function_chunks whole_chunk
function_chunks-Proper fn [] =
    let sized = +ℤ_parts fn.address fn.size in
    let one = +ℤ_parts fn.address (pos 1) in (ground arith, tt)
function_chunks-Proper fn (b ∷ blocks) = chunk_loop-Proper fn 0 (b ∷ blocks)

chunks_loop-Proper :
    (blocks : List BlockRow) (functions : List FunctionRow)
    → All Proper (chunks_loop blocks functions)
unfolding chunks_loop
chunks_loop-Proper blocks [] = tt
chunks_loop-Proper blocks (fn ∷ functions) =
    All-append Proper (function_chunks fn (function_blocks blocks fn.address))
      (chunks_loop blocks functions) (function_chunks-Proper fn (function_blocks blocks fn.address))
      (chunks_loop-Proper blocks functions)

function_chunks-primary :
    (fn : FunctionRow) (blocks : List BlockRow)
    → any (primary_of fn.address) (function_chunks fn blocks) ≡ true
unfolding function_chunks whole_chunk chunk_loop block_chunk
function_chunks-primary fn [] = ground arith
function_chunks-primary fn (b ∷ blocks) = ground arith

chunks_loop-primary :
    (blocks : List BlockRow) (functions : List FunctionRow)
    → All (λ fn. any (primary_of fn.address) (chunks_loop blocks functions) ≡ true) functions
unfolding chunks_loop
chunks_loop-primary blocks [] = tt
chunks_loop-primary blocks (fn ∷ functions) = (
  any-append (primary_of fn.address) (function_chunks fn (function_blocks blocks fn.address))
        (chunks_loop blocks functions)
      ∙ ap (λ b. b || any (primary_of fn.address) (chunks_loop blocks functions))
          (function_chunks-primary fn (function_blocks blocks fn.address)),
  All-imp (λ f. any (primary_of f.address) (chunks_loop blocks functions) ≡ true)
      (λ f. any (primary_of f.address) (chunks_loop blocks (fn ∷ functions)) ≡ true)
      (λ f h.
        any-append (primary_of f.address) (function_chunks fn (function_blocks blocks fn.address))
          (chunks_loop blocks functions)
        ∙ or_true
            (any (primary_of f.address) (function_chunks fn (function_blocks blocks fn.address)))
            (any (primary_of f.address) (chunks_loop blocks functions)) h)
      functions (chunks_loop-primary blocks functions),
)
  where
    or_true : (a b : Bool) → b ≡ true → (a || b) ≡ true
    or_true a b h = ground arith

-- Every chunk holds at least one address, and every function has a primary chunk.
pub derive_function_chunk_rows_lem :
    (source : Source)
    → All Proper (derive_function_chunk_rows source)
      × All
          (λ fn. any (primary_of fn.address) (derive_function_chunk_rows source) ≡ true)
          source.read_functions.1
unfolding derive_function_chunk_rows
derive_function_chunk_rows_lem source = (
  chunks_loop-Proper (derive_block_rows source) source.read_functions.1,
  chunks_loop-primary (derive_block_rows source) source.read_functions.1,
)
