-- ===== src/ByteSearch/Regions/Exact.antt =====
-- The regions of a search hold the addresses of the window at which the pattern fits in a block, and
-- their bounds are addresses.
use ghidrasql.Prelude.{
  ℕ, ◌-◌, ◌≤◌, ◌==◌, ℤ, pos, ◌+ℤ◌, ◌≤ℤ◌, ◌<ℤ◌, +ℤ_parts, -ℤ_parts, leb_ℤ, Bool, true, not, ◌&&◌,
  ◌||◌, Option, none, some, List, [], ◌∷◌, sort_by, sort_by-Pairwise, sort_by-All, any-sort_by, map,
  any, ◌≡◌, refl, sym, ap, subst, ◌∙◌, arith, inl, inr, Bool-cases, Option-cases, All, Pairwise,
}
use ghidrasql.Model.{MemoryBlockRow}
use ghidrasql.Memory.Words.{int64_max, InInt64}
use ghidrasql.Memory.Regions.{MemRegion, block_region, block_loop}
use ghidrasql.Memory.Regions.Blocks.{
  holds, block_holds, in_window, block_loop-none, block_loop-some, block_loop-holds, StartsInOrder,
  block_region-some, behind-IsClipped, clip_start, clip_end,
}
use ghidrasql.ByteSearch.Regions.{starts_first, search_regions}
use ghidrasql.ByteSearch.Regions.Candidates.{
  trimmed, initialized, Bounded, region_of, usable, holds_region, search_loop-block_loop,
}
use ghidrasql.ByteSearch.Scan.Steps.{Proper}

-- A pattern of a length fits at an address in an initialized block.
abbrev pub fits : ℕ → ℤ → MemoryBlockRow → Bool
fits len a blk =
    not (blk.is_initialized == 0) && leb_ℤ blk.start_ea a && leb_ℤ (a +ℤ pos len) blk.end_ea

fits-trimmed :
    (len : ℕ) (a : ℤ) (blk : MemoryBlockRow)
    → 1 ≤ len
    → (initialized blk && block_holds a (trimmed len blk)) ≡ fits len a blk
fits-trimmed len a blk l =
    let less = -ℤ_parts blk.end_ea (pos (len - 1)) in
    let sum = +ℤ_parts a (pos len) in ground (arith, less, sum, l)

any-usable :
    (len : ℕ) (a : ℤ) (blocks : List MemoryBlockRow)
    → 1 ≤ len
    → any (block_holds a) (usable len blocks) ≡ any (fits len a) blocks
any-usable len a [] l = refl
any-usable len a (blk ∷ blocks) l = elim (Bool-cases (initialized blk)) [
  | inl e ↦ rw (sym (fits-trimmed len a blk l), e, any-usable len a blocks l) refl
  | inr e ↦ rw (sym (fits-trimmed len a blk l), e, any-usable len a blocks l) refl
]

usable_order :
    (len : ℕ) (blocks : List MemoryBlockRow)
    → Pairwise StartsInOrder blocks
    → Pairwise StartsInOrder (usable len blocks)
usable_order len [] o = tt
usable_order len (blk ∷ blocks) o = elim (Bool-cases (initialized blk)) [
  | inr e ↦ rw e (usable_order len blocks o.1)
  | inl e ↦ rw e (after blocks o.0, usable_order len blocks o.1)
]
  where
    after :
        (rest : List MemoryBlockRow)
        → All (StartsInOrder blk) rest
        → All (StartsInOrder (trimmed len blk)) (usable len rest)
    after [] h = tt
    after (b ∷ rest) h = elim (Bool-cases (initialized b)) [
      | inr e ↦ rw e (after rest h.1)
      | inl e ↦ rw e (h.0, after rest h.1)
    ]

sorted : (blocks : List MemoryBlockRow) → Pairwise StartsInOrder (sort_by starts_first blocks)
sorted =
    sort_by-Pairwise starts_first StartsInOrder (λ a b h. unfold starts_first in ground arith)
      (λ a b h. unfold starts_first in ground arith) (λ a b c h k. omega arith)

any-map : (a : ℤ) (rs : List MemRegion) → any (holds_region a) (map region_of rs) ≡ any (holds a) rs
any-map a [] = refl
any-map a (r ∷ rs) = ap (λ t. holds a r || t) (any-map a rs)

and_true : (x y : Bool) → (x && (y && true)) ≡ (x && y)
and_true x y = ground arith

-- An address is a candidate exactly when it lies in the window and the pattern fits there in an
-- initialized block, where the bounds of the blocks are `int64_t` values.
pub search_regions-holds :
    (len : ℕ) (lo hi : ℤ) (blocks : List MemoryBlockRow) (a : ℤ)
    → 1 ≤ len
    → hi ≤ℤ int64_max
    → All Bounded blocks
    → any (holds_region a) (search_regions len lo hi blocks)
      ≡ (any (fits len a) blocks && in_window lo hi a)
unfolding search_regions
search_regions-holds len lo hi blocks a l w h =
    let all = sort_by starts_first blocks in
    ap (any (holds_region a))
      (search_loop-block_loop len lo hi none all l (sort_by-All starts_first Bounded blocks h))
    ∙ any-map a (block_loop lo hi none (usable len all))
    ∙ block_loop-holds lo hi none (usable len all) a w (usable_order len all (sorted blocks))
    ∙ and_true (any (block_holds a) (usable len all)) (in_window lo hi a)
    ∙ ap (λ t. t && in_window lo hi a)
        (any-usable len a all l ∙ any-sort_by starts_first (fits len a) blocks)

abbrev Within : MemRegion → Type 0
Within r = InInt64 r.start × (r.start ≤ℤ r.end_incl) × (r.end_incl <ℤ int64_max)

block_region-Within :
    (len : ℕ) (lo hi : ℤ) (back : Option ℤ) (blk : MemoryBlockRow) (r : MemRegion)
    → 1 ≤ len
    → Bounded blk
    → block_region lo hi back (trimmed len blk) ≡ some r
    → Within r
block_region-Within len lo hi back blk r l h e =
    let c =
      behind-IsClipped back (trimmed len blk) (clip_start lo (trimmed len blk))
        (clip_end hi (trimmed len blk)) r (block_region-some lo hi back (trimmed len blk) r e) in
    let less = -ℤ_parts blk.end_ea (pos (len - 1)) in
    let last = -ℤ_parts (trimmed len blk).end_ea (pos 1) in
    let top : clip_end hi (trimmed len blk) <ℤ int64_max = ground (arith, less, last, h.1, l) in
    let end : r.end_incl <ℤ int64_max = subst (λ x. x <ℤ int64_max) (sym c.ends) top in
    let low : blk.start_ea ≤ℤ r.start = ground (arith, c.within) in
    ((omega (arith, low, h.0), omega (arith, c.proper, end)), c.proper, end)

block_loop-Proper :
    (len : ℕ) (lo hi : ℤ) (back : Option ℤ) (blocks : List MemoryBlockRow)
    → 1 ≤ len
    → All Bounded blocks
    → Proper none (map region_of (block_loop lo hi back (usable len blocks)))
block_loop-Proper len lo hi back [] l h = unfold block_loop in tt
block_loop-Proper len lo hi back (blk ∷ blocks) l h = elim (Bool-cases (initialized blk)) [
  | inr i ↦ rw i (block_loop-Proper len lo hi back blocks l h.1)
  | inl i ↦ elim (Option-cases (block_region lo hi back (trimmed len blk))) [
    | inl e ↦
        rw (i, block_loop-none lo hi back (trimmed len blk) (usable len blocks) e)
          (block_loop-Proper len lo hi back blocks l h.1)
    | inr (r, e) ↦
        let w = block_region-Within len lo hi back blk r l h.0 e in
        rw (i, block_loop-some lo hi back (trimmed len blk) (usable len blocks) r e)
          (w.0, w.1, w.2, block_loop-Proper len lo hi (some r.end_incl) blocks l h.1)
  ]
]

-- No region of a search is empty, and their bounds are addresses.
pub search_regions-Proper :
    (len : ℕ) (lo hi : ℤ) (blocks : List MemoryBlockRow)
    → 1 ≤ len
    → All Bounded blocks
    → Proper none (search_regions len lo hi blocks)
unfolding search_regions
search_regions-Proper len lo hi blocks l h =
    let all = sort_by starts_first blocks in
    let bounded = sort_by-All starts_first Bounded blocks h in
    subst (Proper none) (sym (search_loop-block_loop len lo hi none all l bounded))
      (block_loop-Proper len lo hi none all l bounded)
