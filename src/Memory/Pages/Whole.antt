-- ===== src/Memory/Pages/Whole.antt =====
-- A walk to its end visits every address of its regions once, in order.
use ghidrasql.Prelude.{
  ℕ, zero, suc, ◌≤◌, ◌<◌, ℤ, Bool, true, false, Option, none, some, List, [], ◌∷◌, ◌++◌, length,
  length-append, ◌≡◌, refl, sym, ap, ◌∙◌, arith, All,
}
use ghidrasql.Memory.Words.{addr_distance}
use ghidrasql.Memory.Regions.{MemRegion}
use ghidrasql.Memory.Pages.{Page, Walk, memory_byte_page, advance_cursor_range}
use ghidrasql.Memory.Pages.Tiling.{page_run, regions_run, Sound, advance_cursor_range-Step}

-- The pages of a walk to its end, and `none` where the fuel runs out.
unfoldable pub all_pages : Bool → ℕ → Walk → Option (List Page)
all_pages d zero walk = none
all_pages d (suc fuel) walk = elim (advance_cursor_range d walk) [
  | none ↦ some []
  | some (page, rest) ↦ elim (all_pages d fuel rest) [
    | none ↦ none
    | some pages ↦ some (page ∷ pages)
  ]
]

-- The addresses of some pages, in the order of the walk.
abbrev pub pages_run : Bool → List Page → List ℤ
pages_run d [] = []
pages_run d (page ∷ pages) = page_run d page ++ pages_run d pages

abbrev pub IsPage : Page → Type 0
IsPage page = suc (addr_distance page.lo page.hi_incl) ≤ memory_byte_page

page_run-length : (d : Bool) (page : Page) → 1 ≤ length (page_run d page)
page_run-length true page = omega arith
page_run-length false page = omega arith

-- Up or down, over regions that are not empty: a walk on more fuel than there are addresses left comes
-- to its end; its pages, of 32768 addresses at most, hold one after the other exactly the addresses
-- that were left, each once and in the order of the walk.
pub all_pages_lem :
    (descending : Bool) (fuel : ℕ) (regions : List MemRegion) (cursor : Option ℤ)
    → Sound descending cursor regions
    → length (regions_run descending cursor regions) < fuel
    → (pages : List Page) × (all_pages descending fuel
          (record { regions = regions; cursor = cursor })
        ≡ some pages)
      × (pages_run descending pages ≡ regions_run descending cursor regions)
      × All IsPage pages
unfolding all_pages
all_pages_lem d zero regions cursor s h = absurd (omega (arith, h))
all_pages_lem d (suc fuel) [] cursor s h =
    ([], rw (all_pages, advance_cursor_range-Step d [] cursor tt) refl, refl, tt)
all_pages_lem d (suc fuel) (rg ∷ later) cursor s h =
    let step = advance_cursor_range-Step d (rg ∷ later) cursor s in
    let page = step.0.0 in
    let walk = step.0.1 in
    let rest = all_pages_lem d fuel walk.regions walk.cursor step.2.1 (
      omega (
        arith,
        h,
        ap length step.2.0,
        length-append (page_run d page) (regions_run d walk.cursor walk.regions),
        page_run-length d page,
      )) in
    (
      page ∷ rest.0,
      rw (all_pages, step.1, rest.1) refl,
      ap (λ t. page_run d page ++ t) rest.2 ∙ sym step.2.0,
      (step.2.2, rest.3),
    )
