-- ===== src/ByteSearch/Complete.antt =====
-- A search finds every match in the window, and nothing else.
use ghidrasql.Prelude.{
  ℕ, zero, suc, ◌≤◌, ◌<◌, ℤ, pos, ◌+ℤ◌, ◌≤ℤ◌, +ℤ_parts, ltb_ℤ, leb_ℤ, eqb_ℤ, eqb_ℤ_iff, Bool, true,
  false, ◌&&◌, ◌||◌, none, some, List, [], ◌∷◌, if◌then◌else◌, length, map, any, any-append, ◌≡◌,
  refl, sym, ap, subst, ◌∙◌, arith, inl, inr, Bool-cases, All,
}
use ghidrasql.Memory.Words.{int64_max}
use ghidrasql.Memory.Regions.Blocks.{in_window}
use ghidrasql.ByteSearch.Pattern.{ByteSearchPatternByte}
use ghidrasql.ByteSearch.Regions.{ByteSearchRegion, Search}
use ghidrasql.ByteSearch.Regions.Candidates.{Bounded, holds_region}
use ghidrasql.ByteSearch.Regions.Exact.{fits, search_regions-holds, search_regions-Proper}
use ghidrasql.ByteSearch.Scan.{ByteSource, ByteSearchRow, new_search, remaining_candidates, drain}
use ghidrasql.ByteSearch.Scan.Enough.{work}
use ghidrasql.ByteSearch.Scan.Served.{matches_at, hits}
use ghidrasql.ByteSearch.Scan.Steps.{Serves, region_hits, Proper, remaining_exact}
use ghidrasql.ByteSearch.Scan.Drain.{limit, regions_of, drain-region_hits}

abbrev in_run : ℤ → ℤ → ℕ → Bool
in_run a c n = leb_ℤ c a && ltb_ℤ a (c +ℤ pos n)

run_empty : (a c : ℤ) (m : Bool) → false ≡ (in_run a c 0 && m)
run_empty a c m = let s = +ℤ_parts c (pos 0) in ground (arith, s)

run_other : (a c : ℤ) (n : ℕ) → eqb_ℤ a c ≡ false → in_run a (c +ℤ pos 1) n ≡ in_run a c (suc n)
run_other a c n h =
    let s = +ℤ_parts c (pos 1) in
    let t = +ℤ_parts (c +ℤ pos 1) (pos n) in
    let u = +ℤ_parts c (pos (suc n)) in ground (arith, h, s, t, u)

run_first : (c : ℤ) (n : ℕ) → in_run c c (suc n) ≡ true
run_first c n = let u = +ℤ_parts c (pos (suc n)) in ground (arith, u)

run_gone : (c : ℤ) (n : ℕ) (m : Bool) → (in_run c (c +ℤ pos 1) n && m) ≡ false
run_gone c n m = let s = +ℤ_parts c (pos 1) in ground (arith, s)

any-choice :
    (a c : ℤ) (b : Bool) (xs : List ℤ)
    → any (eqb_ℤ a) (if b then c ∷ xs else xs) ≡ ((eqb_ℤ a c && b) || any (eqb_ℤ a) xs)
any-choice a c true xs = ground arith
any-choice a c false xs = ground arith

any-hits :
    (mem : ℤ → ℕ) (pattern : List ByteSearchPatternByte) (a c : ℤ) (n : ℕ)
    → any (eqb_ℤ a) (hits mem pattern c n) ≡ (in_run a c n && matches_at mem pattern a)
any-hits mem pattern a c zero = run_empty a c (matches_at mem pattern a)
any-hits mem pattern a c (suc n) =
    any-choice a c (matches_at mem pattern c) (hits mem pattern (c +ℤ pos 1) n)
    ∙ ap (λ t. (eqb_ℤ a c && matches_at mem pattern c) || t) (any-hits mem pattern a (c +ℤ pos 1) n)
    ∙ (elim (Bool-cases (eqb_ℤ a c)) [
      | inl e ↦
          subst
            (λ x.
              ((eqb_ℤ x c && matches_at mem pattern c)
                || (in_run x (c +ℤ pos 1) n && matches_at mem pattern x))
              ≡ (in_run x c (suc n) && matches_at mem pattern x))
            (sym ((eqb_ℤ_iff a c).0 e))
            (rw ((eqb_ℤ_iff c c).1 refl, run_gone c n (matches_at mem pattern c), run_first c n)
              (or_false (matches_at mem pattern c)))
      | inr e ↦ rw (e, run_other a c n e) refl
    ])
  where
    or_false : (b : Bool) → ((true && b) || false) ≡ (true && b)
    or_false b = ground arith

region_run :
    (a : ℤ) (r : ByteSearchRegion)
    → Proper none (r ∷ [])
    → in_run a r.start (remaining_candidates r.start r) ≡ holds_region a r
region_run a r p =
    rw (remaining_exact r.start r p.0 p.1 p.2)
      (let next = +ℤ_parts r.end_incl (pos 1) in ground (arith, next))

either : (x y m : Bool) → ((x && m) || (y && m)) ≡ ((x || y) && m)
either x y m = ground arith

any-region_hits :
    (mem : ℤ → ℕ) (pattern : List ByteSearchPatternByte) (a : ℤ) (regions : List ByteSearchRegion)
    → Proper none regions
    → any (eqb_ℤ a) (region_hits mem pattern none regions)
      ≡ (any (holds_region a) regions && matches_at mem pattern a)
unfolding region_hits
any-region_hits mem pattern a [] p = refl
any-region_hits mem pattern a (r ∷ regions) p =
    any-append (eqb_ℤ a) (hits mem pattern r.start (remaining_candidates r.start r))
      (region_hits mem pattern none regions)
    ∙ rw
        (
          any-hits mem pattern a r.start (remaining_candidates r.start r),
          region_run a r (p.0, p.1, p.2, tt),
          any-region_hits mem pattern a regions p.3,
        )
        (either (holds_region a r) (any (holds_region a) regions) (matches_at mem pattern a))

any-map_address :
    (a : ℤ) (rows : List ByteSearchRow)
    → any (λ row. eqb_ℤ a row.address) rows ≡ any (eqb_ℤ a) (map (λ row. row.address) rows)
any-map_address a [] = refl
any-map_address a (row ∷ rows) = ap (λ t. eqb_ℤ a row.address || t) (any-map_address a rows)

-- A search without `max_results`, read to its end over a source that serves a memory, has a row at an
-- address exactly when the address lies in the window, the pattern fits there in an initialized block,
-- and the memory matches the pattern there. The bounds of the blocks and of the window are `int64_t`
-- values; there is more fuel than candidates and regions, and one round more than matches.
pub drain_complete :
    (mem : ℤ → ℕ) (source : ByteSource) (search : Search) (fuel rounds : ℕ) (a : ℤ)
    → Serves mem source
    → 1 ≤ length search.pattern
    → search.max_results ≡ 0
    → search.empty ≡ false
    → ltb_ℤ search.window_hi search.window_lo ≡ false
    → search.window_hi ≤ℤ int64_max
    → source.read_memory_blocks.0 ≡ true
    → All Bounded source.read_memory_blocks.1
    → work none (regions_of source search) < fuel
    → length (region_hits mem search.pattern none (regions_of source search)) < rounds
    → (rows : List ByteSearchRow) × (drain source search fuel rounds (new_search search)
        ≡ some rows)
      × (any (λ row. eqb_ℤ a row.address) rows ≡ (
          (any (fits (length search.pattern) a) source.read_memory_blocks.1
            && in_window search.window_lo search.window_hi a)
          && matches_at mem search.pattern a))
drain_complete mem source search fuel rounds a serves l m e w u b h f r =
    let proper =
      search_regions-Proper (length search.pattern) search.window_lo search.window_hi
        source.read_memory_blocks.1 l h in
    let found = drain-region_hits mem source serves search l fuel rounds e w b proper f r in
    (
      found.0,
      found.1,
      any-map_address a found.0
          ∙ ap (any (eqb_ℤ a)) (found.2 ∙ all_of search.max_results m)
          ∙ any-region_hits mem search.pattern a (regions_of source search) proper
          ∙ ap (λ t. t && matches_at mem search.pattern a)
              (search_regions-holds (length search.pattern) search.window_lo search.window_hi
                source.read_memory_blocks.1 a l u h),
    )
  where
    all_of :
        (n : ℕ)
        → n ≡ 0
        → limit n 0 (region_hits mem search.pattern none (regions_of source search))
          ≡ region_hits mem search.pattern none (regions_of source search)
    all_of n z = rw z refl
