-- ===== src/Memory/Regions/Blocks.antt =====
-- Which addresses the clipped blocks hold.
use ghidrasql.Prelude.{
  ℤ, pos, ◌-ℤ◌, +ℤ_parts, -ℤ_parts, ◌≤ℤ◌, ltb_ℤ, leb_ℤ, max_ℤ, min_ℤ, Bool, true, false, ◌&&◌, ◌||◌,
  Option, none, some, List, [], ◌∷◌, ◌≡◌, refl, sym, ap, ◌∙◌, inl, inr, arith, sort_by, any,
  any-sort_by, sort_by-Pairwise, Pairwise, All, Bool-cases, Option-cases,
}
use ghidrasql.Model.{MemoryBlockRow}
use ghidrasql.Memory.Words.{int64_max}
use ghidrasql.Memory.Regions.{
  MemRegion, behind, block_before, block_region, block_loop, block_regions,
}

-- Whether an address lies in a region.
abbrev pub holds : ℤ → MemRegion → Bool
holds a r = leb_ℤ r.start a && leb_ℤ a r.end_incl

abbrev pub block_holds : ℤ → MemoryBlockRow → Bool
block_holds a blk = leb_ℤ blk.start_ea a && ltb_ℤ a blk.end_ea

abbrev pub in_window : ℤ → ℤ → ℤ → Bool
in_window window_lo window_hi a = leb_ℤ window_lo a && leb_ℤ a window_hi

-- Whether an address lies behind the last region.
abbrev pub past : Option ℤ → ℤ → Bool
past none a = true
past (some back) a = ltb_ℤ back a

abbrev region_holds : ℤ → Option MemRegion → Bool
region_holds a none = false
region_holds a (some r) = holds a r

behind-holds :
    (back : Option ℤ) (blk : MemoryBlockRow) (s e a : ℤ)
    → e ≤ℤ int64_max
    → region_holds a (behind back blk s e) ≡ ((leb_ℤ s a && leb_ℤ a e) && past back a)
behind-holds none blk s e a h = ground arith
behind-holds (some back) blk s e a h = let next = +ℤ_parts back (pos 1) in ground arith

pub empty_span : (s e a : ℤ) → ltb_ℤ e s ≡ true → (leb_ℤ s a && leb_ℤ a e) ≡ false
empty_span s e a h = ground arith

pub leb-max : (x y a : ℤ) → leb_ℤ (max_ℤ x y) a ≡ (leb_ℤ x a && leb_ℤ y a)
leb-max x y a = ground arith

pub leb-min : (x y a : ℤ) → leb_ℤ a (min_ℤ x y) ≡ (leb_ℤ a x && leb_ℤ a y)
leb-min x y a = ground arith

leb-sub_one : (y a : ℤ) → leb_ℤ a (y -ℤ pos 1) ≡ ltb_ℤ a y
leb-sub_one y a = let prev = -ℤ_parts y (pos 1) in ground arith

-- A block gives the addresses of its own that lie in the window and behind the last region.
clip_regroup :
    (t x y u v w : Bool)
    → (x ≡ true → y ≡ true → t ≡ true)
    → (t && (((x && u) && (y && v)) && w)) ≡ ((x && y) && ((u && v) && w))
clip_regroup t x y u v w h = ground arith

proper_block :
    (blk : MemoryBlockRow) (a : ℤ)
    → leb_ℤ blk.start_ea a ≡ true
    → ltb_ℤ a blk.end_ea ≡ true
    → ltb_ℤ blk.start_ea blk.end_ea ≡ true
proper_block blk a h k = ground arith

block_region-behind :
    (window_lo window_hi : ℤ) (back : Option ℤ) (blk : MemoryBlockRow) (a : ℤ)
    → min_ℤ (blk.end_ea -ℤ pos 1) window_hi ≤ℤ int64_max
    → region_holds a (block_region window_lo window_hi back blk) ≡ (
        ltb_ℤ blk.start_ea blk.end_ea
        && ((leb_ℤ (max_ℤ blk.start_ea window_lo) a
              && leb_ℤ a (min_ℤ (blk.end_ea -ℤ pos 1) window_hi))
            && past back a))
unfolding block_region
block_region-behind window_lo window_hi back blk a h =
    let s = max_ℤ blk.start_ea window_lo in
    let e = min_ℤ (blk.end_ea -ℤ pos 1) window_hi in
    elim (Bool-cases (leb_ℤ blk.end_ea blk.start_ea)) [
      | inl empty ↦
          let e' : ltb_ℤ blk.start_ea blk.end_ea ≡ false = ground arith in rw (empty, e') refl
      | inr full ↦
          let e' : ltb_ℤ blk.start_ea blk.end_ea ≡ true = ground arith in
          elim (Bool-cases (ltb_ℤ e s)) [
            | inl short ↦ rw (full, e', short, empty_span s e a short) refl
            | inr long ↦ rw (full, e', long) (behind-holds back blk s e a h)
          ]
    ]

block_region-holds :
    (window_lo window_hi : ℤ) (back : Option ℤ) (blk : MemoryBlockRow) (a : ℤ)
    → window_hi ≤ℤ int64_max
    → region_holds a (block_region window_lo window_hi back blk)
      ≡ (block_holds a blk && (in_window window_lo window_hi a && past back a))
block_region-holds window_lo window_hi back blk a h =
    block_region-behind window_lo window_hi back blk a (ground arith)
    ∙ (rw
        (
          leb-max blk.start_ea window_lo a,
          leb-min (blk.end_ea -ℤ pos 1) window_hi a,
          leb-sub_one blk.end_ea a,
        )
        (clip_regroup (ltb_ℤ blk.start_ea blk.end_ea) (leb_ℤ blk.start_ea a) (ltb_ℤ a blk.end_ea)
          (leb_ℤ window_lo a) (leb_ℤ a window_hi) (past back a) (proper_block blk a)))

abbrev pub StartsInOrder : MemoryBlockRow → MemoryBlockRow → Type 0
StartsInOrder a b = a.start_ea ≤ℤ b.start_ea

-- How a region lies in the bounds `s` and `e` that its block was clipped to.
pub record IsClipped (s e : ℤ) (back : Option ℤ) (r : MemRegion) : Type 0 where
  pub ends : r.end_incl ≡ e
  pub proper : r.start ≤ℤ r.end_incl
  pub within : s ≤ℤ r.start
  pub after : past back r.start ≡ true

pub behind-IsClipped :
    (back : Option ℤ) (blk : MemoryBlockRow) (s e : ℤ) (r : MemRegion)
    → behind back blk s e ≡ some r
    → IsClipped s e back r
behind-IsClipped none blk s e r h = ground arith
behind-IsClipped (some back) blk s e r h = let next = +ℤ_parts back (pos 1) in ground arith

behind-least :
    (back : Option ℤ) (blk : MemoryBlockRow) (s e : ℤ) (r : MemRegion) (a : ℤ)
    → behind back blk s e ≡ some r
    → s ≤ℤ a
    → past back a ≡ true
    → r.start ≤ℤ a
behind-least none blk s e r a h k p = ground arith
behind-least (some back) blk s e r a h k p = let next = +ℤ_parts back (pos 1) in ground arith

abbrev pub clip_start : ℤ → MemoryBlockRow → ℤ
clip_start window_lo blk = max_ℤ blk.start_ea window_lo

abbrev pub clip_end : ℤ → MemoryBlockRow → ℤ
clip_end window_hi blk = min_ℤ (blk.end_ea -ℤ pos 1) window_hi

pub block_region-some :
    (window_lo window_hi : ℤ) (back : Option ℤ) (blk : MemoryBlockRow) (r : MemRegion)
    → block_region window_lo window_hi back blk ≡ some r
    → behind back blk (clip_start window_lo blk) (clip_end window_hi blk) ≡ some r
unfolding block_region
block_region-some window_lo window_hi back blk r h =
    elim (Bool-cases (leb_ℤ blk.end_ea blk.start_ea)) [
      | inl e ↦ absurd (none-ne-some r (rw e at h))
      | inr e ↦ elim (Bool-cases (ltb_ℤ (clip_end window_hi blk) (clip_start window_lo blk))) [
        | inl f ↦ absurd (none-ne-some r (rw (e, f) at h))
        | inr f ↦ rw (e, f) at h
      ]
    ]
  where
    none-ne-some : (x : MemRegion) → none ≡ some x → ⊥
    none-ne-some x q = cc

pub block_loop-none :
    (window_lo window_hi : ℤ) (back : Option ℤ) (blk : MemoryBlockRow)
    (blocks : List MemoryBlockRow)
    → block_region window_lo window_hi back blk ≡ none
    → block_loop window_lo window_hi back (blk ∷ blocks)
      ≡ block_loop window_lo window_hi back blocks
unfolding block_loop
block_loop-none window_lo window_hi back blk blocks h = rw (block_loop, h) refl

pub block_loop-some :
    (window_lo window_hi : ℤ) (back : Option ℤ) (blk : MemoryBlockRow)
    (blocks : List MemoryBlockRow) (r : MemRegion)
    → block_region window_lo window_hi back blk ≡ some r
    → block_loop window_lo window_hi back (blk ∷ blocks)
      ≡ r ∷ block_loop window_lo window_hi (some r.end_incl) blocks
unfolding block_loop
block_loop-some window_lo window_hi back blk blocks r h = rw (block_loop, h) refl

-- An address in a later block lies at or behind the start of an earlier one.
later_block :
    (blk : MemoryBlockRow) (blocks : List MemoryBlockRow) (a : ℤ)
    → All (StartsInOrder blk) blocks
    → any (block_holds a) blocks ≡ true
    → blk.start_ea ≤ℤ a
later_block blk [] a o h = cc
later_block blk (b ∷ blocks) a o h = elim (Bool-cases (block_holds a b)) [
  | inl e ↦ ground (arith, o.0)
  | inr e ↦ later_block blk blocks a o.1 (ground arith)
]

none_step :
    (bh rest w p : Bool)
    → false ≡ (bh && (w && p))
    → (rest && (w && p)) ≡ ((bh || rest) && (w && p))
none_step bh rest w p h = ground arith

some_step :
    (r : MemRegion) (back : Option ℤ) (a window_lo window_hi : ℤ) (bh rest : Bool)
    → holds a r ≡ (bh && (in_window window_lo window_hi a && past back a))
    → past back r.start ≡ true
    → r.start ≤ℤ r.end_incl
    → (rest ≡ true → window_lo ≤ℤ a → past back a ≡ true → r.start ≤ℤ a)
    → (holds a r || (rest && (in_window window_lo window_hi a && ltb_ℤ r.end_incl a)))
      ≡ ((bh || rest) && (in_window window_lo window_hi a && past back a))
some_step r none a window_lo window_hi bh rest h p q k = ground arith
some_step r (some back) a window_lo window_hi bh rest h p q k = ground arith

-- The loop gives the addresses of the blocks that lie in the window and behind the last region.
pub block_loop-holds :
    (window_lo window_hi : ℤ) (back : Option ℤ) (blocks : List MemoryBlockRow) (a : ℤ)
    → window_hi ≤ℤ int64_max
    → Pairwise StartsInOrder blocks
    → any (holds a) (block_loop window_lo window_hi back blocks)
      ≡ (any (block_holds a) blocks && (in_window window_lo window_hi a && past back a))
block_loop-holds window_lo window_hi back [] a h o = unfold block_loop in refl
block_loop-holds window_lo window_hi back (blk ∷ blocks) a h o =
    elim (Option-cases (block_region window_lo window_hi back blk)) [
      | inl e ↦
          ap (any (holds a)) (block_loop-none window_lo window_hi back blk blocks e)
          ∙ block_loop-holds window_lo window_hi back blocks a h o.1
          ∙ none_step (block_holds a blk) (any (block_holds a) blocks)
              (in_window window_lo window_hi a) (past back a)
              (ap (region_holds a) (sym e) ∙ block_region-holds window_lo window_hi back blk a h)
      | inr (r, e) ↦
          let b = block_region-some window_lo window_hi back blk r e in
          let c =
            behind-IsClipped back blk (clip_start window_lo blk) (clip_end window_hi blk) r b in
          ap (any (holds a)) (block_loop-some window_lo window_hi back blk blocks r e)
          ∙ ap (λ t. holds a r || t)
              (block_loop-holds window_lo window_hi (some r.end_incl) blocks a h o.1)
          ∙ some_step r back a window_lo window_hi (block_holds a blk) (any (block_holds a) blocks)
              (ap (region_holds a) (sym e) ∙ block_region-holds window_lo window_hi back blk a h)
              c.after c.proper
              (λ m w p.
                behind-least back blk (clip_start window_lo blk) (clip_end window_hi blk) r a b
                  (max_least blk.start_ea window_lo a (later_block blk blocks a o.0 m) w) p)
    ]
  where
    max_least : (x y z : ℤ) → x ≤ℤ z → y ≤ℤ z → max_ℤ x y ≤ℤ z
    max_least x y z p q = ground arith

block_before→ : (a b : MemoryBlockRow) → block_before a b ≡ true → StartsInOrder a b
unfolding block_before
block_before→ a b h = ground arith

not_block_before→ : (a b : MemoryBlockRow) → block_before b a ≡ false → StartsInOrder a b
unfolding block_before
not_block_before→ a b h = ground arith

sorted_blocks :
    (blocks : List MemoryBlockRow) → Pairwise StartsInOrder (sort_by block_before blocks)
sorted_blocks =
    sort_by-Pairwise block_before StartsInOrder block_before→ not_block_before→
      (λ a b c h k. omega arith)

-- The clipped blocks hold exactly the addresses of the window that lie in some block.
pub block_regions-holds :
    (window_lo window_hi : ℤ) (blocks : List MemoryBlockRow) (a : ℤ)
    → window_hi ≤ℤ int64_max
    → any (holds a) (block_regions window_lo window_hi blocks)
      ≡ (any (block_holds a) blocks && in_window window_lo window_hi a)
unfolding block_regions
block_regions-holds window_lo window_hi blocks a h =
    block_loop-holds window_lo window_hi none (sort_by block_before blocks) a h
      (sorted_blocks blocks)
    ∙ (rw (any-sort_by block_before (block_holds a) blocks) (ground arith))

-- Each region starts behind the one before it, and none is empty.
abbrev pub IsLadder : Option ℤ → List MemRegion → Type 0
IsLadder back [] = Unit
IsLadder back (r ∷ rs) =
    (past back r.start ≡ true) × (r.start ≤ℤ r.end_incl) × IsLadder (some r.end_incl) rs

block_loop-IsLadder :
    (window_lo window_hi : ℤ) (back : Option ℤ) (blocks : List MemoryBlockRow)
    → IsLadder back (block_loop window_lo window_hi back blocks)
block_loop-IsLadder window_lo window_hi back [] = unfold block_loop in tt
block_loop-IsLadder window_lo window_hi back (blk ∷ blocks) =
    elim (Option-cases (block_region window_lo window_hi back blk)) [
      | inl e ↦
          rw (block_loop-none window_lo window_hi back blk blocks e)
            (block_loop-IsLadder window_lo window_hi back blocks)
      | inr (r, e) ↦
          let b = block_region-some window_lo window_hi back blk r e in
          let c =
            behind-IsClipped back blk (clip_start window_lo blk) (clip_end window_hi blk) r b in
          rw (block_loop-some window_lo window_hi back blk blocks r e)
            (c.after, c.proper, block_loop-IsLadder window_lo window_hi (some r.end_incl) blocks)
    ]

pub block_regions-IsLadder :
    (window_lo window_hi : ℤ) (blocks : List MemoryBlockRow)
    → IsLadder none (block_regions window_lo window_hi blocks)
unfolding block_regions
block_regions-IsLadder window_lo window_hi blocks =
    block_loop-IsLadder window_lo window_hi none (sort_by block_before blocks)
