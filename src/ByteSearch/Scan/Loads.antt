-- ===== src/ByteSearch/Scan/Loads.antt =====
-- A page that is loaded from a source that serves a memory, and what is then left to find.
use ghidrasql.Prelude.{
  ℕ, suc, ◌+◌, ◌-◌, ◌≤◌, ◌<◌, min, ◌==◌, ℤ, pos, pos_part, neg_part, ◌+ℤ◌, ◌≤ℤ◌, +ℤ_parts, true,
  false, some, List, [], ◌∷◌, ◌++◌, length, ◌≡◌, refl, ap, ◌∙◌, ◌⊎◌, arith, inr,
}
use ghidrasql.Memory.Words.{int64_max, InInt64}
use ghidrasql.ByteSearch.Pattern.{ByteSearchPatternByte, byte_search_hex}
use ghidrasql.ByteSearch.Regions.{ByteSearchRegion, page_candidates}
use ghidrasql.ByteSearch.Scan.{
  ByteSource, ByteSearchState, ByteSearchRow, cursor_at, remaining_candidates, advance_candidates,
  served_count, stopped, loaded, skipped, load_round, load_loop, load_next_page,
}
use ghidrasql.ByteSearch.Scan.Enough.{work, work_left, advance-less}
use ghidrasql.ByteSearch.Scan.Served.{served, hits, add_zero, length-served}
use ghidrasql.ByteSearch.Scan.Steps.{
  Serves, region_hits, Proper, remaining_exact, remaining_positive, Keeps, advance-Keeps,
}

-- The matches that are left to find.
abbrev pub pending : (ℤ → ℕ) → List ByteSearchPatternByte → ByteSearchState → List ℤ
pending mem pattern st =
    hits mem pattern (st.page_start +ℤ pos st.page_candidate_index)
      (st.page_candidate_count - st.page_candidate_index)
    ++ region_hits mem pattern st.cursor st.regions

-- The page holds the bytes of its candidates and of the overlap behind them.
abbrev pub PageHolds : (ℤ → ℕ) → ℕ → ByteSearchState → Type 0
PageHolds mem pattern_len st =
    (st.page ≡ served mem st.page_start (st.page_candidate_count + pattern_len - 1))
    × InInt64 st.page_start
    × (st.page_start +ℤ pos st.page_candidate_count ≤ℤ int64_max)

abbrev pub Sound : (ℤ → ℕ) → ℕ → ByteSearchState → Type 0
Sound mem pattern_len st =
    (st.page_candidate_index ≤ st.page_candidate_count)
    × ((st.page_candidate_count ≡ 0) ⊎ PageHolds mem pattern_len st)
    × Proper st.cursor st.regions

-- The row of a match.
abbrev pub IsMatch : (ℤ → ℕ) → ℕ → ByteSearchRow → Type 0
IsMatch mem pattern_len row =
    (row.matched_bytes ≡ served mem row.address pattern_len)
    × (row.matched_hex ≡ byte_search_hex (served mem row.address pattern_len))

abbrev pub filled_page : (ℤ → ℕ) → ℕ → ℕ → ℤ → ByteSearchState → ByteSearchState
filled_page mem pattern_len k c st = record st {
  page = served mem c (k + pattern_len - 1);
  page_start = c;
  cursor = some c;
  page_candidate_count = k;
}

module _ (mem : ℤ → ℕ) (source : ByteSource) (serves : Serves mem source)
    (pattern : List ByteSearchPatternByte) (some_pattern : 1 ≤ length pattern) where
  served_all :
      (k : ℕ) (c : ℤ)
      → 1 ≤ k
      → served_count
          (length pattern)
          k
          (record { ok = true; bytes = served mem c (k + length pattern - 1); reported = false })
        ≡ k
  unfolding served_count
  served_all k c h =
      rw (length-served mem c (k + length pattern - 1)) (ground (arith, h, some_pattern))

  round_loads :
      (r : ByteSearchRegion) (later : List ByteSearchRegion) (st : ByteSearchState)
      → Proper st.cursor (r ∷ later)
      → (let c = cursor_at r.start st.cursor in
          let k = min (remaining_candidates c r) page_candidates in
          load_round source (length pattern) r later st
          ≡ loaded (advance_candidates k c r later (filled_page mem (length pattern) k c st)))
  unfolding load_round
  round_loads r later st p =
      let c = cursor_at r.start st.cursor in
      let k = min (remaining_candidates c r) page_candidates in
      let some_left : 1 ≤ k = omega (arith, remaining_positive c r p.0 p.1 p.2) in
      rw (serves c (k + length pattern - 1), served_all k c some_left, positive k some_left) refl
    where
      positive : (k : ℕ) → 1 ≤ k → (k == 0) ≡ false
      positive k h = ground (arith, h)

  load_loop_first :
      (fuel : ℕ) (r : ByteSearchRegion) (later : List ByteSearchRegion) (st s : ByteSearchState)
      → st.regions ≡ r ∷ later
      → load_round source (length pattern) r later st ≡ loaded s
      → load_loop source (length pattern) (suc fuel) st ≡ some (true, s)
  unfolding load_loop
  load_loop_first fuel r later st s e q =
      ap
        (λ rs. elim rs [
          | [] ↦ some (false, st)
          | region ∷ rest ↦ elim (load_round source (length pattern) region rest st) [
            | stopped t ↦ some (false, t)
            | loaded t ↦ some (true, t)
            | skipped t ↦ load_loop source (length pattern) fuel t
          ]
        ])
        e
      ∙ rw q refl

  -- A page of `k` candidates from `c` on that has just been loaded.
  fresh-Sound :
      (k : ℕ) (c : ℤ) (st s : ByteSearchState)
      → st.page_candidate_index ≡ 0
      → InInt64 c
      → c +ℤ pos k ≤ℤ int64_max
      → Keeps (filled_page mem (length pattern) k c st) s
      → Proper s.cursor s.regions
      → Sound mem (length pattern) s
  fresh-Sound k c st s z p l keeps proper = (
    omega (arith, keeps.5, z),
    inr (rw (keeps.3, keeps.4, keeps.6) refl, rw keeps.4 p, rw (keeps.4, keeps.6) l),
    proper,
  )

  fresh-pending :
      (k : ℕ) (c : ℤ) (st s : ByteSearchState) (all : List ℤ)
      → st.page_candidate_index ≡ 0
      → Keeps (filled_page mem (length pattern) k c st) s
      → hits mem pattern c k ++ region_hits mem pattern s.cursor s.regions ≡ all
      → pending mem pattern s ≡ all
  fresh-pending k c st s all z keeps h =
      rw (keeps.4, keeps.5, z, keeps.6, add_zero c, minus_zero k) h
    where
      minus_zero : (k : ℕ) → k - 0 ≡ k
      minus_zero k = omega arith

  -- The first page of the regions that are left.
  pub load_loads :
      (fuel : ℕ) (r : ByteSearchRegion) (later : List ByteSearchRegion) (st : ByteSearchState)
      → st.regions ≡ r ∷ later
      → Proper st.cursor (r ∷ later)
      → (s : ByteSearchState) × (load_next_page source (length pattern) (suc fuel) st
          ≡ some (true, s))
        × (work_left s < work st.cursor (r ∷ later))
        × (s.empty ≡ st.empty)
        × (s.initialized ≡ st.initialized)
        × (s.emitted ≡ st.emitted)
        × Sound mem (length pattern) s
        × (pending mem pattern s ≡ region_hits mem pattern st.cursor (r ∷ later))
  load_loads fuel r later st e p =
      let c = cursor_at r.start st.cursor in
      let k = min (remaining_candidates c r) page_candidates in
      let cleared : ByteSearchState = record st {
        page = [];
        page_candidate_index = 0;
        page_candidate_count = 0;
      } in
      let filled = filled_page mem (length pattern) k c cleared in
      let s = advance_candidates k c r later filled in
      let some_left : 1 ≤ k = omega (arith, remaining_positive c r p.0 p.1 p.2) in
      let keeps = advance-Keeps mem pattern k c r later filled e (omega arith) p in
      (
        s,
        unfold load_next_page in
            load_loop_first fuel r later cleared s e (round_loads r later cleared p),
        unfold work in
            advance-less k c r later filled (λ z. absurd (omega (arith, z, some_left))) e,
        keeps.0.0,
        keeps.0.1,
        keeps.0.2,
        fresh-Sound k c cleared s refl p.0 (page_end c r k p (omega arith)) keeps.0 keeps.1,
        unfold region_hits in
            fresh-pending k c cleared s (region_hits mem pattern st.cursor (r ∷ later)) refl keeps.0
              keeps.2,
      )
    where
      page_end :
          (c : ℤ) (r : ByteSearchRegion) (k : ℕ)
          → Proper (some c) (r ∷ later)
          → k ≤ remaining_candidates c r
          → c +ℤ pos k ≤ℤ int64_max
      page_end c r k p h =
          let e = remaining_exact c r p.0 p.1 p.2 in
          let all = +ℤ_parts c (pos (remaining_candidates c r)) in
          let part = +ℤ_parts c (pos k) in
          let next = +ℤ_parts r.end_incl (pos 1) in
          let parts = ap pos_part e in
          let other = ap neg_part e in omega (arith, all, part, next, parts, other, h, p.2)
