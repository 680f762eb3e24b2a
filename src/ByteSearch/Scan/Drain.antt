-- ===== src/ByteSearch/Scan/Drain.antt =====
-- A scan that is read to its end gives the matches of its regions.
use ghidrasql.Prelude.{
  ℕ, zero, suc, ◌-◌, ◌≤◌, ◌<◌, ◌==◌, ℤ, ltb_ℤ, true, false, not, ◌&&◌, Option, none, some, List, [],
  ◌∷◌, if◌then◌else◌, leb, length, is_empty, take, map, ◌≡◌, refl, sym, ap, ◌∙◌, arith, inl, inr,
  Bool-cases, All,
}
use ghidrasql.ByteSearch.Pattern.{ByteSearchPatternByte}
use ghidrasql.ByteSearch.Regions.{ByteSearchRegion, Search, search_regions}
use ghidrasql.ByteSearch.Scan.{
  ByteSource, ByteSearchState, ByteSearchRow, new_search, init, next_loop, next, drain,
}
use ghidrasql.ByteSearch.Scan.Enough.{work, work_left}
use ghidrasql.ByteSearch.Scan.Loads.{pending, Sound, IsMatch}
use ghidrasql.ByteSearch.Scan.Steps.{Serves, region_hits, Proper}
use ghidrasql.ByteSearch.Scan.Refines.{next_loop-Step}

-- The front of a list that `max_results` lets through, where 0 lets all through.
abbrev pub limit : ℕ → ℕ → List ℤ → List ℤ
limit max_results emitted addresses =
    if max_results == 0 then addresses else take (max_results - emitted) addresses

limit_reached : (m n : ℕ) (xs : List ℤ) → (not (m == 0) && leb m n) ≡ true → limit m n xs ≡ []
limit_reached m n xs h =
    let nonzero : (m == 0) ≡ false = ground (arith, h) in
    let full : m - n ≡ 0 = ground (arith, h) in rw (nonzero, full) refl

limit_nil : (m n : ℕ) → limit m n [] ≡ []
limit_nil m n = elim (Bool-cases (m == 0)) [ inl e ↦ rw e refl | inr e ↦ rw e (take_nil (m - n)) ]
  where
    take_nil : (k : ℕ) → take {A = ℤ} k [] ≡ []
    take_nil zero = refl
    take_nil (suc k) = refl

limit_cons :
    (m n : ℕ) (x : ℤ) (xs : List ℤ)
    → (not (m == 0) && leb m n) ≡ false
    → limit m n (x ∷ xs) ≡ x ∷ limit m (suc n) xs
limit_cons m n x xs h = elim (Bool-cases (m == 0)) [
  | inl e ↦ rw e refl
  | inr e ↦ let room : m - n ≡ suc (m - suc n) = ground (arith, h, e) in rw (e, room) refl
]

-- The regions that the search lists.
abbrev pub regions_of : ByteSource → Search → List ByteSearchRegion
regions_of source search =
    search_regions (length search.pattern) search.window_lo search.window_hi
      source.read_memory_blocks.1

module _ (mem : ℤ → ℕ) (source : ByteSource) (serves : Serves mem source) (search : Search)
    (some_pattern : 1 ≤ length search.pattern) where
  abbrev pub Drained : List ℤ → Option (List ByteSearchRow) → Type 0
  Drained addresses o =
      (rows : List ByteSearchRow) × (o ≡ some rows)
      × (map (λ row. row.address) rows ≡ addresses)
      × All (IsMatch mem (length search.pattern)) rows

  next_open :
      (fuel : ℕ) (st : ByteSearchState)
      → st.initialized ≡ true
      → st.empty ≡ false
      → next source search fuel st ≡ (
          if not (search.max_results == 0) && leb search.max_results st.emitted
          then some (none, st)
          else next_loop source search.pattern fuel st)
  unfolding next
  next_open fuel st i e = rw (i, e) refl

  drain_open :
      (fuel rounds : ℕ) (st : ByteSearchState)
      → st.initialized ≡ true
      → st.empty ≡ false
      → Sound mem (length search.pattern) st
      → work_left st < fuel
      → length (pending mem search.pattern st) < rounds
      → Drained
          (limit search.max_results st.emitted (pending mem search.pattern st))
          (drain source search fuel rounds st)
  unfolding drain
  drain_open fuel zero st i e sound h k = absurd (omega (arith, k))
  drain_open fuel (suc rounds) st i e sound h k =
      elim (Bool-cases (not (search.max_results == 0) && leb search.max_results st.emitted)) [
        | inl full ↦
            rw
              (
                drain,
                next_open fuel st i e,
                full,
                limit_reached search.max_results st.emitted (pending mem search.pattern st) full,
              )
              ([], refl, refl, tt)
        | inr more ↦
            elim (next_loop-Step mem source serves search.pattern some_pattern fuel st sound h) [
              | inl (s, q, z) ↦
                  rw
                    (
                      drain,
                      next_open fuel st i e,
                      more,
                      q,
                      z,
                      limit_nil search.max_results st.emitted,
                    )
                    ([], refl, refl, tt)
              | inr (row, s, q, first, match, inner, less, e', i', m') ↦
                  let rest =
                    drain_open fuel rounds s (i' ∙ i) (e' ∙ e) inner (omega (arith, less, h))
                      (omega (arith, ap length first, k)) in
                  rw (drain, next_open fuel st i e, more, q, rest.1)
                    (
                      row ∷ rest.0,
                      refl,
                      ap (λ t. row.address ∷ t) rest.2
                          ∙ ap
                              (λ n.
                                row.address
                                ∷ limit search.max_results n (pending mem search.pattern s))
                              m'
                          ∙ sym (
                              ap (limit search.max_results st.emitted) first
                              ∙ limit_cons search.max_results st.emitted row.address
                                  (pending mem search.pattern s) more),
                      (match, rest.3),
                    )
            ]
      ]

  -- The state behind `init`.
  opened_with : List ByteSearchRegion → ByteSearchState
  opened_with regions = record (new_search search) {
    initialized = true;
    regions = regions;
    empty = is_empty regions;
  }

  drain_opened :
      (fuel rounds : ℕ) (regions : List ByteSearchRegion)
      → Proper none regions
      → work none regions < fuel
      → length (region_hits mem search.pattern none regions) < rounds
      → Drained
          (limit search.max_results 0 (region_hits mem search.pattern none regions))
          (drain source search fuel rounds (opened_with regions))
  unfolding opened_with drain next region_hits
  drain_opened fuel zero regions p h k = absurd (omega (arith, k))
  drain_opened fuel (suc rounds) [] p h k = rw (limit_nil search.max_results 0) ([], refl, refl, tt)
  drain_opened fuel (suc rounds) (r ∷ regions) p h k =
      drain_open fuel (suc rounds) (opened_with (r ∷ regions)) refl refl (omega arith, inl refl, p)
        h k

  drain_first :
      (fuel rounds : ℕ) (st s : ByteSearchState)
      → next source search fuel st ≡ next source search fuel s
      → drain source search fuel (suc rounds) st ≡ drain source search fuel (suc rounds) s
  unfolding drain
  drain_first fuel rounds st s e =
      ap
        (λ o. elim o [
          | none ↦ none
          | some (none, t) ↦ some []
          | some (some row, t) ↦ elim (drain source search fuel rounds t) [
            | none ↦ none
            | some rows ↦ some (row ∷ rows)
          ]
        ])
        e

  next_new :
      (fuel : ℕ)
      → search.empty ≡ false
      → ltb_ℤ search.window_hi search.window_lo ≡ false
      → source.read_memory_blocks.0 ≡ true
      → next source search fuel (new_search search)
        ≡ next source search fuel (
            opened_with (
              search_regions
                (length search.pattern)
                search.window_lo
                search.window_hi
                source.read_memory_blocks.1))
  unfolding next init opened_with
  next_new fuel a b c = rw (a, not_empty search.pattern some_pattern, b, c) refl
    where
      not_empty : (xs : List ByteSearchPatternByte) → 1 ≤ length xs → is_empty xs ≡ false
      not_empty [] h = absurd (omega (arith, h))
      not_empty (x ∷ xs) h = refl

  -- A search over a source that serves a memory, read to its end, gives the matches in its regions,
  -- one row each, in the order of the regions and by address within one, or the first `max_results`
  -- of them. Each row holds the bytes of its match and their text. It needs more fuel than there are
  -- candidates and regions, and one round more than there are matches.
  pub drain-region_hits :
      (fuel rounds : ℕ)
      → search.empty ≡ false
      → ltb_ℤ search.window_hi search.window_lo ≡ false
      → source.read_memory_blocks.0 ≡ true
      → Proper none (regions_of source search)
      → work none (regions_of source search) < fuel
      → length (region_hits mem search.pattern none (regions_of source search)) < rounds
      → Drained
          (limit search.max_results 0
            (region_hits mem search.pattern none (regions_of source search)))
          (drain source search fuel rounds (new_search search))
  drain-region_hits fuel zero a b c p h k = absurd (omega (arith, k))
  drain-region_hits fuel (suc rounds) a b c p h k =
      let regions =
        search_regions (length search.pattern) search.window_lo search.window_hi
          source.read_memory_blocks.1 in
      rw (drain_first fuel rounds (new_search search) (opened_with regions) (next_new fuel a b c))
        (drain_opened fuel (suc rounds) regions p h k)
