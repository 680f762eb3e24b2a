-- ===== src/ByteSearch/Regions/Candidates.antt =====
-- Which addresses the regions of a search hold.
use ghidrasql.Prelude.{
  ℕ, ◌-◌, ◌≤◌, ◌==◌, ℤ, pos, pos_part, neg_part, ◌+ℤ◌, ◌-ℤ◌, ◌≤ℤ◌, +ℤ_parts, -ℤ_parts, eq_of_parts,
  ltb_ℤ, leb_ℤ, eqb_ℤ, max_ℤ, min_ℤ, Bool, true, false, not, ◌&&◌, Option, none, some, List, [],
  ◌∷◌, ltb, map, select, ◌≡◌, refl, sym, ap, ◌∙◌, arith, inl, inr, Bool-cases, Option-cases, All,
}
use ghidrasql.Model.{MemoryBlockRow}
use ghidrasql.Memory.Words.{
  int64_max, InInt64, addr_distance, addr_add, addr_distance_lem, addr_add_lem,
}
use ghidrasql.Memory.Regions.{MemRegion, block_region, block_loop, behind}
use ghidrasql.ByteSearch.Regions.{
  byte_search_addr_distance, byte_search_addr_add, ByteSearchRegion, search_behind, search_region,
  search_loop,
}

-- The block without the addresses at which a pattern no longer fits.
abbrev pub trimmed : ℕ → MemoryBlockRow → MemoryBlockRow
trimmed len blk = record blk { end_ea = blk.end_ea -ℤ pos (len - 1) }

abbrev pub initialized : MemoryBlockRow → Bool
initialized blk = not (blk.is_initialized == 0)

-- A block of `int64_t` bounds.
abbrev pub Bounded : MemoryBlockRow → Type 0
Bounded blk = InInt64 blk.start_ea × InInt64 blk.end_ea

abbrev pub region_of : MemRegion → ByteSearchRegion
region_of r = record { start = r.start; end_incl = r.end_incl }

abbrev maybe_region : Option MemRegion → Option ByteSearchRegion
maybe_region none = none
maybe_region (some r) = some (region_of r)

size_exact :
    (blk : MemoryBlockRow)
    → Bounded blk
    → leb_ℤ blk.end_ea blk.start_ea ≡ false
    → pos (byte_search_addr_distance blk.start_ea blk.end_ea) ≡ blk.end_ea -ℤ blk.start_ea
unfolding byte_search_addr_distance
size_exact blk h e =
    unfold addr_distance in addr_distance_lem blk.start_ea blk.end_ea h.0 h.1 (ground (arith, e))

too_short :
    (blk : MemoryBlockRow) (len : ℕ)
    → Bounded blk
    → 1 ≤ len
    → leb_ℤ blk.end_ea blk.start_ea ≡ false
    → ltb (byte_search_addr_distance blk.start_ea blk.end_ea) len
      ≡ leb_ℤ (trimmed len blk).end_ea blk.start_ea
too_short blk len h l e =
    let size = size_exact blk h e in
    let parts = ap pos_part size in
    let other = ap neg_part size in
    let difference = -ℤ_parts blk.end_ea blk.start_ea in
    let less = -ℤ_parts blk.end_ea (pos (len - 1)) in
    ground (arith, parts, other, difference, less, l)

last_candidate :
    (blk : MemoryBlockRow) (len : ℕ)
    → Bounded blk
    → 1 ≤ len
    → leb_ℤ blk.end_ea blk.start_ea ≡ false
    → ltb (byte_search_addr_distance blk.start_ea blk.end_ea) len ≡ false
    → byte_search_addr_add blk.start_ea (byte_search_addr_distance blk.start_ea blk.end_ea - len)
      ≡ (trimmed len blk).end_ea -ℤ pos 1
last_candidate blk len h l e k =
    let d = byte_search_addr_distance blk.start_ea blk.end_ea in
    let size = size_exact blk h e in
    let parts = ap pos_part size in
    let other = ap neg_part size in
    let difference = -ℤ_parts blk.end_ea blk.start_ea in
    let less = -ℤ_parts blk.end_ea (pos (len - 1)) in
    let last = -ℤ_parts (trimmed len blk).end_ea (pos 1) in
    let sum = +ℤ_parts blk.start_ea (pos (d - len)) in
    let enough : len ≤ d = ground (arith, k) in
    let end : blk.start_ea +ℤ pos (d - len) ≤ℤ int64_max =
      omega (arith, parts, other, difference, sum, enough, h.1, l) in
    add_in_range blk.start_ea (d - len) h.0 end
    ∙ eq_of_parts (blk.start_ea +ℤ pos (d - len)) ((trimmed len blk).end_ea -ℤ pos 1)
        (omega (arith, parts, other, difference, less, last, sum, enough, l))
  where
    add_in_range :
        (c : ℤ) (k : ℕ)
        → InInt64 c
        → c +ℤ pos k ≤ℤ int64_max
        → byte_search_addr_add c k ≡ c +ℤ pos k
    add_in_range c k p q = unfold byte_search_addr_add in unfold addr_add in addr_add_lem c k p q

-- The two ways to go on behind a region agree.
search_behind-behind :
    (back : Option ℤ) (blk : MemoryBlockRow) (s e : ℤ)
    → ltb_ℤ e s ≡ false
    → search_behind back s e ≡ maybe_region (behind back blk s e)
search_behind-behind none blk s e h = rw h refl
search_behind-behind (some back) blk s e h = elim (Bool-cases (leb_ℤ s back)) [
  | inr a ↦ rw (a, h) refl
  | inl a ↦ elim (Bool-cases (eqb_ℤ back int64_max)) [
    | inl b ↦ rw (a, b) refl
    | inr b ↦ elim (Bool-cases (ltb_ℤ e (back +ℤ pos 1))) [
      | inl c ↦ rw (a, b, c) refl
      | inr c ↦ rw (a, b, c) refl
    ]
  ]
]

-- A round over an initialized block is the round over the trimmed block.
search_region-block_region :
    (len : ℕ) (lo hi : ℤ) (back : Option ℤ) (blk : MemoryBlockRow)
    → 1 ≤ len
    → Bounded blk
    → (blk.is_initialized == 0) ≡ false
    → search_region len lo hi back blk ≡ maybe_region (block_region lo hi back (trimmed len blk))
unfolding search_region block_region
search_region-block_region len lo hi back blk l h i =
    elim (Bool-cases (leb_ℤ blk.end_ea blk.start_ea)) [
      | inl e ↦ rw (i, e, gone e) refl
      | inr e ↦ elim (Bool-cases (ltb (byte_search_addr_distance blk.start_ea blk.end_ea) len)) [
        | inl k ↦ rw (i, e, k, sym (too_short blk len h l e) ∙ k) refl
        | inr k ↦
            elim (Bool-cases
              (ltb_ℤ (min_ℤ ((trimmed len blk).end_ea -ℤ pos 1) hi) (max_ℤ blk.start_ea lo))) [
                | inl m ↦
                    rw
                      (
                        i,
                        e,
                        k,
                        sym (too_short blk len h l e) ∙ k,
                        last_candidate blk len h l e k,
                        m,
                      )
                      refl
                | inr m ↦
                    rw
                      (
                        i,
                        e,
                        k,
                        sym (too_short blk len h l e) ∙ k,
                        last_candidate blk len h l e k,
                        m,
                      )
                      (search_behind-behind back (trimmed len blk) (max_ℤ blk.start_ea lo)
                        (min_ℤ ((trimmed len blk).end_ea -ℤ pos 1) hi) m)
              ]
      ]
    ]
  where
    gone : leb_ℤ blk.end_ea blk.start_ea ≡ true → leb_ℤ (trimmed len blk).end_ea blk.start_ea ≡ true
    gone e = let less = -ℤ_parts blk.end_ea (pos (len - 1)) in ground (arith, e, less)

search_region-skip :
    (len : ℕ) (lo hi : ℤ) (back : Option ℤ) (blk : MemoryBlockRow)
    → (blk.is_initialized == 0) ≡ true
    → search_region len lo hi back blk ≡ none
unfolding search_region
search_region-skip len lo hi back blk i = rw i refl

abbrev pub usable : ℕ → List MemoryBlockRow → List MemoryBlockRow
usable len blocks = map (trimmed len) (select initialized blocks)

abbrev pub holds_region : ℤ → ByteSearchRegion → Bool
holds_region a r = leb_ℤ r.start a && leb_ℤ a r.end_incl

pub search_loop-block_loop :
    (len : ℕ) (lo hi : ℤ) (back : Option ℤ) (blocks : List MemoryBlockRow)
    → 1 ≤ len
    → All Bounded blocks
    → search_loop len lo hi back blocks ≡ map region_of (block_loop lo hi back (usable len blocks))
unfolding search_loop block_loop
search_loop-block_loop len lo hi back [] l h = refl
search_loop-block_loop len lo hi back (blk ∷ blocks) l h =
    elim (Bool-cases (blk.is_initialized == 0)) [
      | inl i ↦
          rw (search_loop, search_region-skip len lo hi back blk i, i)
            (search_loop-block_loop len lo hi back blocks l h.1)
      | inr i ↦ elim (Option-cases (block_region lo hi back (trimmed len blk))) [
        | inl e ↦
            rw
              (search_loop, search_region-block_region len lo hi back blk l h.0 i, i, block_loop, e)
              (search_loop-block_loop len lo hi back blocks l h.1)
        | inr (r, e) ↦
            rw
              (search_loop, search_region-block_region len lo hi back blk l h.0 i, i, block_loop, e)
              (ap (λ t. region_of r ∷ t)
                (search_loop-block_loop len lo hi (some r.end_incl) blocks l h.1))
      ]
    ]
