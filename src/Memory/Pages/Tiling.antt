-- ===== src/Memory/Pages/Tiling.antt =====
-- The pages tile the regions: each holds the first addresses that are left.
use ghidrasql.Prelude.{
  suc, ◌-◌, ◌≤◌, min, ℤ, pos, ◌+ℤ◌, ◌-ℤ◌, ◌≤ℤ◌, eqb_ℤ, eqb_ℤ_iff, Bool, true, false, Option, none,
  some, List, [], ◌∷◌, ◌++◌, append_assoc, ◌≡◌, refl, sym, ap, subst, ◌∙◌, arith, inl, inr,
  Bool-cases,
}
use ghidrasql.Memory.Words.{int64_min, int64_max, InInt64, addr_distance, addr_add, addr_add_lem}
use ghidrasql.Memory.Regions.{MemRegion}
use ghidrasql.Memory.Pages.{
  Page, Walk, memory_byte_page, addr_sub, cursor_or, advance_up, advance_down, advance_cursor_range,
}
use ghidrasql.Memory.Pages.Runs.{
  run, run-append, addr_sub_lem, distance_of, between, plus_one, up_less, left_over, minus_plus,
  minus_one, between_down, down_less, left_below,
}

-- The addresses of a page, in the order of the walk.
abbrev pub page_run : Bool → Page → List ℤ
page_run true page = run true page.hi_incl (suc (addr_distance page.lo page.hi_incl))
page_run false page = run false page.lo (suc (addr_distance page.lo page.hi_incl))

-- The addresses of a region from a cursor on.
abbrev pub region_run : Bool → Option ℤ → MemRegion → List ℤ
region_run true cursor rg =
    run true (cursor_or rg.end_incl cursor)
      (suc (addr_distance rg.start (cursor_or rg.end_incl cursor)))
region_run false cursor rg =
    run false (cursor_or rg.start cursor)
      (suc (addr_distance (cursor_or rg.start cursor) rg.end_incl))

-- The addresses that are left.
abbrev pub regions_run : Bool → Option ℤ → List MemRegion → List ℤ
regions_run d cursor [] = []
regions_run d cursor (rg ∷ later) = region_run d cursor rg ++ regions_run d none later

-- The cursor stands in its region, and the bounds are `int64_t` values.
abbrev pub cursor_in : Bool → Option ℤ → MemRegion → ℤ
cursor_in true cursor rg = cursor_or rg.end_incl cursor
cursor_in false cursor rg = cursor_or rg.start cursor

abbrev pub Sound : Bool → Option ℤ → List MemRegion → Type 0
Sound d cursor [] = Unit
Sound d cursor (rg ∷ later) =
    InInt64 rg.start
    × InInt64 rg.end_incl
    × (rg.start ≤ℤ cursor_in d cursor rg)
    × (cursor_in d cursor rg ≤ℤ rg.end_incl)
    × Sound d none later

-- What one page is of the addresses that are left.
abbrev pub Tiles : Bool → List ℤ → MemRegion → Page × Walk → Type 0
Tiles d left rg r =
    (left ≡ page_run d r.0 ++ regions_run d r.1.cursor r.1.regions)
    × Sound d r.1.cursor r.1.regions
    × (suc (addr_distance r.0.lo r.0.hi_incl) ≤ memory_byte_page)
    × (r.0.kind ≡ rg.kind)

up-Tiles :
    (rg : MemRegion) (later : List MemRegion) (c : ℤ)
    → Sound false (some c) (rg ∷ later)
    → Tiles false (regions_run false (some c) (rg ∷ later)) rg (advance_up rg later c)
unfolding advance_up
up-Tiles rg later c s =
    let d = addr_distance c rg.end_incl in
    let step = min d (memory_byte_page - 1) in
    let p : InInt64 c = (omega (arith, s.0.0, s.2), omega (arith, s.1.1, s.3)) in
    let mid = between c rg.end_incl step p s.1 s.3 (omega arith) in
    let hi : addr_add c step ≡ c +ℤ pos step = addr_add_lem c step p mid.0.1 in
    let size = distance_of c (c +ℤ pos step) step p mid.0 refl in
    elim (Bool-cases (eqb_ℤ (c +ℤ pos step) rg.end_incl)) [
      | inl e ↦
          let whole : d ≡ step =
            distance_of c rg.end_incl step p s.1
              (sym ((eqb_ℤ_iff (c +ℤ pos step) rg.end_incl).0 e)) in
          rw (hi, e, size)
            (
              ap (λ n. run false c (suc n) ++ regions_run false none later) whole,
              s.4,
              omega arith,
              refl,
            )
      | inr e ↦
          let less = up_less c rg.end_incl step p s.1 s.3 (omega arith) e in
          let after = between c rg.end_incl (suc step) p s.1 s.3 less in
          let next : addr_add (c +ℤ pos step) 1 ≡ c +ℤ pos (suc step) =
            addr_add_lem (c +ℤ pos step) 1 mid.0
              (subst (λ x. x ≤ℤ int64_max) (sym (plus_one c step)) after.0.1)
            ∙ plus_one c step in
          rw (hi, e, size, next)
            (
              ap (λ t. t ++ regions_run false none later)
                    (run-append false (suc step) c (suc d)
                      (suc (addr_distance (c +ℤ pos (suc step)) rg.end_incl))
                      (left_over c rg.end_incl (suc step) p s.1 s.3 less))
                  ∙ append_assoc (run false c (suc step))
                      (run false (c +ℤ pos (suc step))
                        (suc (addr_distance (c +ℤ pos (suc step)) rg.end_incl)))
                      (regions_run false none later),
              (s.0, s.1, omega (arith, after.1, s.2), after.2, s.4),
              omega arith,
              refl,
            )
    ]

down-Tiles :
    (rg : MemRegion) (later : List MemRegion) (c : ℤ)
    → Sound true (some c) (rg ∷ later)
    → Tiles true (regions_run true (some c) (rg ∷ later)) rg (advance_down rg later c)
unfolding advance_down
down-Tiles rg later c s =
    let d = addr_distance rg.start c in
    let step = min d (memory_byte_page - 1) in
    let p : InInt64 c = (omega (arith, s.0.0, s.2), omega (arith, s.1.1, s.3)) in
    let mid = between_down rg.start c step s.0 p s.2 (omega arith) in
    let lo : addr_sub c step ≡ c -ℤ pos step = addr_sub_lem c step p mid.0.0 in
    let size = distance_of (c -ℤ pos step) c step mid.0 p (minus_plus c step) in
    elim (Bool-cases (eqb_ℤ (c -ℤ pos step) rg.start)) [
      | inl e ↦
          let whole : d ≡ step = distance_of rg.start c step s.0 p (
            subst (λ x. c ≡ x +ℤ pos step) ((eqb_ℤ_iff (c -ℤ pos step) rg.start).0 e)
              (minus_plus c step)) in
          rw (lo, e, size)
            (
              ap (λ n. run true c (suc n) ++ regions_run true none later) whole,
              s.4,
              omega arith,
              refl,
            )
      | inr e ↦
          let less = down_less rg.start c step s.0 p s.2 (omega arith) e in
          let after = between_down rg.start c (suc step) s.0 p s.2 less in
          let next : addr_sub (c -ℤ pos step) 1 ≡ c -ℤ pos (suc step) =
            addr_sub_lem (c -ℤ pos step) 1 mid.0
              (subst (λ x. int64_min ≤ℤ x) (sym (minus_one c step)) after.0.0)
            ∙ minus_one c step in
          rw (lo, e, size, next)
            (
              ap (λ t. t ++ regions_run true none later)
                    (run-append true (suc step) c (suc d)
                      (suc (addr_distance rg.start (c -ℤ pos (suc step))))
                      (left_below rg.start c (suc step) s.0 p s.2 less))
                  ∙ append_assoc (run true c (suc step))
                      (run true (c -ℤ pos (suc step))
                        (suc (addr_distance rg.start (c -ℤ pos (suc step)))))
                      (regions_run true none later),
              (s.0, s.1, after.1, omega (arith, after.2, s.3), s.4),
              omega arith,
              refl,
            )
    ]

-- Whether a step of the walk is what the addresses that are left want.
abbrev pub Step : Bool → List MemRegion → Option ℤ → Option (Page × Walk) → Type 0
Step d [] cursor o = o ≡ none
Step d (rg ∷ later) cursor o =
    (r : Page × Walk) × (o ≡ some r) × Tiles d (regions_run d cursor (rg ∷ later)) rg r

-- Up or down, over regions that are not empty: the walk ends when no region is left. Otherwise the
-- next page holds the first of the addresses that are left, in the order of the walk, the walk behind
-- it has exactly the others left, and the page has 32768 addresses at most, all of one region.
pub advance_cursor_range-Step :
    (descending : Bool) (regions : List MemRegion) (cursor : Option ℤ)
    → Sound descending cursor regions
    → Step descending regions cursor
        (advance_cursor_range descending (record { regions = regions; cursor = cursor }))
unfolding advance_cursor_range
advance_cursor_range-Step d [] cursor s = refl
advance_cursor_range-Step false (rg ∷ later) cursor s = (
  advance_up rg later (cursor_or rg.start cursor),
  refl,
  up-Tiles rg later (cursor_or rg.start cursor) s,
)
advance_cursor_range-Step true (rg ∷ later) cursor s = (
  advance_down rg later (cursor_or rg.end_incl cursor),
  refl,
  down-Tiles rg later (cursor_or rg.end_incl cursor) s,
)
