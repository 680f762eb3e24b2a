-- ===== src/Derive/Blocks.antt =====
-- `derive_memory_block_rows` and `derive_block_rows`.
use ghidrasql.Prelude.{
  ℕ, ◌+◌, ◌*◌, ◌/◌, ◌%◌, ◌<◌, pos, ◌+ℤ◌, ◌-ℤ◌, +ℤ_parts, -ℤ_parts, ◌≤ℤ◌, ◌<ℤ◌, ltb_ℤ, false, List,
  [], ◌∷◌, map, ◌≡◌, refl, inl, inr, arith, ◌==◌, if◌then◌else◌, All, Bool-cases,
}
use ghidrasql.Model.{FunctionRow, SegmentRow, MemoryBlockRow, BlockRow}
use ghidrasql.Derive.{Source, direct_or}

-- A bit of `perm`, as 1 or 0.
bit : ℕ → ℕ → ℕ
bit perm mask = if perm / mask % 2 == 0 then 0 else 1

pub segment_block : SegmentRow → MemoryBlockRow
unfolding bit
segment_block seg = record {
  start_ea = seg.start_ea;
  end_ea = seg.end_ea;
  name = seg.name;
  block_class = seg.segment_class;
  perm = seg.perm;
  bitness = seg.bitness;
  size = if ltb_ℤ seg.start_ea seg.end_ea then seg.end_ea -ℤ seg.start_ea else pos 0;
  is_read = bit seg.perm 4;
  is_write = bit seg.perm 2;
  is_exec = bit seg.perm 1;
  is_initialized = 1;
}

pub derive_memory_block_rows : Source → List MemoryBlockRow
unfolding segment_block
derive_memory_block_rows source =
    direct_or source.read_memory_blocks (map segment_block source.read_segments.1)

function_block : FunctionRow → BlockRow
function_block fn =
    let size_hint = if ltb_ℤ (pos 0) fn.size then fn.size else pos 1 in
    record {
      func_addr = fn.address;
      start_ea = fn.address;
      end_ea = if ltb_ℤ fn.address fn.end_ea then fn.end_ea else fn.address +ℤ size_hint;
      in_degree = pos 0;
      out_degree = pos 0;
    }

pub derive_block_rows : Source → List BlockRow
unfolding function_block
derive_block_rows source =
    direct_or source.read_blocks
      (if source.read_functions.0 then map function_block source.read_functions.1 else [])

three_bits_sum : (n : ℕ) → n / 4 % 2 * 4 + n / 2 % 2 * 2 + n / 1 % 2 ≡ n % 8
three_bits_sum n = omega arith

-- The three permission flags of a derived block are the low bits of its segment's permissions, and
-- its size is never negative.
pub segment_block_lem :
    (seg : SegmentRow)
    → (let blk = segment_block seg in
        (blk.is_read * 4 + blk.is_write * 2 + blk.is_exec ≡ seg.perm % 8) × (pos 0 ≤ℤ blk.size))
unfolding segment_block bit
segment_block_lem seg =
    let d = -ℤ_parts seg.end_ea seg.start_ea in
    (
      three_bits (seg.perm / 4 % 2) (seg.perm / 2 % 2) (seg.perm / 1 % 2) (omega arith)
          (omega arith) (omega arith) (three_bits_sum seg.perm),
      ground arith,
    )
  where
    three_bits :
        (a b c : ℕ)
        → a < 2
        → b < 2
        → c < 2
        → a * 4 + b * 2 + c ≡ seg.perm % 8
        → (if a == 0 then 0 else 1) * 4 + (if b == 0 then 0 else 1) * 2 + (if c == 0 then 0 else 1)
          ≡ seg.perm % 8
    three_bits a b c x y z h = ground (arith, h)

-- Every block that stands for a function holds the function's own address.
pub derive_block_rows_lem :
    (source : Source)
    → source.read_blocks.0 ≡ false
    → All (λ b. (b.start_ea ≡ b.func_addr) × (b.func_addr <ℤ b.end_ea)) (derive_block_rows source)
unfolding derive_block_rows function_block
derive_block_rows_lem source h = rw h (elim (Bool-cases source.read_functions.0) [
  | inl e ↦ rw e (each source.read_functions.1)
  | inr e ↦ rw e tt
])
  where
    each :
        (functions : List FunctionRow)
        → All
            (λ b. (b.start_ea ≡ b.func_addr) × (b.func_addr <ℤ b.end_ea))
            (map function_block functions)
    each [] = tt
    each (fn ∷ functions) = ((refl, holds_start fn), each functions)
      where
        holds_start : (f : FunctionRow) → f.address <ℤ (function_block f).end_ea
        holds_start f =
            let sized = +ℤ_parts f.address f.size in
            let one = +ℤ_parts f.address (pos 1) in ground arith
