-- ===== src/ByteSearch/Scan/Refines.antt =====
-- The scan is an iterator over the matches: each call of `next` gives the first that is left.
use ghidrasql.Prelude.{
  ℕ, zero, suc, ◌+◌, ◌-◌, ◌≤◌, ◌<◌, ℤ, pos, ◌+ℤ◌, ◌≤ℤ◌, +ℤ_parts, true, false, Option, none, some,
  List, [], ◌∷◌, ◌++◌, length, drop, take, ◌≡◌, refl, sym, ap, ◌∙◌, ◌⊎◌, arith, inl, inr,
  Option-cases, subst,
}
use ghidrasql.Memory.Words.{int64_max}
use ghidrasql.ByteSearch.Pattern.{ByteSearchPatternByte, byte_search_hex}
use ghidrasql.ByteSearch.Regions.{ByteSearchRegion}
use ghidrasql.ByteSearch.Scan.{
  ByteSource, ByteSearchState, ByteSearchRow, stopped, loaded, skipped, load_round, load_loop,
  load_next_page, find_candidate, match_row, next_loop,
}
use ghidrasql.ByteSearch.Scan.Enough.{work, work_left}
use ghidrasql.ByteSearch.Scan.Served.{
  served, hits, drop-served, take-served, Finds, find_candidate-Finds,
}
use ghidrasql.ByteSearch.Scan.Loads.{pending, PageHolds, Sound, IsMatch, load_loads}
use ghidrasql.ByteSearch.Scan.Steps.{Serves, region_hits, Proper, add_exact}

module _ (mem : ℤ → ℕ) (source : ByteSource) (serves : Serves mem source)
    (pattern : List ByteSearchPatternByte) (some_pattern : 1 ≤ length pattern) where
  page_drop :
      (i : ℕ) (st : ByteSearchState)
      → PageHolds mem (length pattern) st
      → i ≤ st.page_candidate_count
      → drop i st.page
        ≡ served mem (st.page_start +ℤ pos i) ((st.page_candidate_count - i) + length pattern - 1)
  page_drop i st holds h =
      ap (drop i) holds.0
      ∙ drop-served mem i st.page_start (st.page_candidate_count + length pattern - 1)
          ((st.page_candidate_count - i) + length pattern - 1) (omega (arith, h, some_pattern))

  abbrev search_of : ByteSearchState → Option ℕ
  search_of st =
      find_candidate pattern (drop st.page_candidate_index st.page) st.page_candidate_index
        (st.page_candidate_count - st.page_candidate_index)

  finds :
      (st : ByteSearchState)
      → Sound mem (length pattern) st
      → Finds mem pattern st.page_start st.page_candidate_index
          (st.page_candidate_count - st.page_candidate_index)
          (search_of st)
  unfolding find_candidate
  finds st sound = elim sound.1 [
    | inl z ↦ rw (none_left z) refl
    | inr holds ↦ rw (page_drop st.page_candidate_index st holds sound.0) (
        find_candidate-Finds mem pattern st.page_start
          (st.page_candidate_count - st.page_candidate_index) st.page_candidate_index
          ((st.page_candidate_count - st.page_candidate_index) + length pattern - 1) refl
          some_pattern)
  ]
    where
      none_left :
          st.page_candidate_count ≡ 0 → st.page_candidate_count - st.page_candidate_index ≡ 0
      none_left z = omega (arith, z)

  match_row-IsMatch :
      (i : ℕ) (st : ByteSearchState)
      → PageHolds mem (length pattern) st
      → i < st.page_candidate_count
      → ((match_row pattern st i).address ≡ st.page_start +ℤ pos i)
        × IsMatch mem (length pattern) (match_row pattern st i)
  unfolding match_row
  match_row-IsMatch i st holds h =
      let a = add_exact st.page_start i holds.1 (room i h) in
      let bytes =
        ap (take (length pattern)) (page_drop i st holds (omega (arith, h)))
        ∙ take-served mem (length pattern) (st.page_start +ℤ pos i)
            ((st.page_candidate_count - i) + length pattern - 1) (omega (arith, h))
        ∙ ap (λ x. served mem x (length pattern)) (sym a) in
      (a, (bytes, ap byte_search_hex bytes))
    where
      room : (i : ℕ) → i < st.page_candidate_count → st.page_start +ℤ pos i ≤ℤ int64_max
      room i h =
          let whole = +ℤ_parts st.page_start (pos st.page_candidate_count) in
          let part = +ℤ_parts st.page_start (pos i) in omega (arith, whole, part, h, holds.2)

  -- What a call of the loop does: it ends with nothing left, or gives the first match.
  abbrev pub Step : ByteSearchState → Option (Option ByteSearchRow × ByteSearchState) → Type 0
  Step st o =
      ((s : ByteSearchState) × (o ≡ some (none, s)) × (pending mem pattern st ≡ []))
      ⊎ ((row : ByteSearchRow) × (s : ByteSearchState) × (o ≡ some (some row, s))
          × (pending mem pattern st ≡ row.address ∷ pending mem pattern s)
          × IsMatch mem (length pattern) row
          × Sound mem (length pattern) s
          × (work_left s ≤ work_left st)
          × (s.empty ≡ st.empty)
          × (s.initialized ≡ st.initialized)
          × (s.emitted ≡ suc st.emitted))

  gives :
      (i : ℕ) (st : ByteSearchState) (o : Option (Option ByteSearchRow × ByteSearchState))
      → Sound mem (length pattern) st
      → search_of st ≡ some i
      → o
        ≡ some (
          some (match_row pattern st i),
          record st { emitted = suc st.emitted; page_candidate_index = suc i },
        )
      → Step st o
  gives i st o sound e q =
      let f =
        subst
          (Finds mem pattern st.page_start st.page_candidate_index
            (st.page_candidate_count - st.page_candidate_index))
          e (finds st sound) in
      let below : i < st.page_candidate_count = omega (arith, f.1, sound.0) in
      elim sound.1 [
        | inl z ↦ absurd (omega (arith, below, z))
        | inr holds ↦
            let row = match_row-IsMatch i st holds below in
            inr (
              match_row pattern st i,
              record st { emitted = suc st.emitted; page_candidate_index = suc i },
              q,
              ap (λ t. t ++ region_hits mem pattern st.cursor st.regions) f.2
                  ∙ ap
                      (λ n.
                        (st.page_start +ℤ pos i)
                        ∷ (hits mem pattern (st.page_start +ℤ pos (suc i)) n
                            ++ region_hits mem pattern st.cursor st.regions))
                      (count_left st.page_candidate_index st.page_candidate_count i sound.0 below)
                  ∙ ap
                      (λ x.
                        x
                        ∷ (hits mem pattern (st.page_start +ℤ pos (suc i))
                              (st.page_candidate_count - suc i)
                            ++ region_hits mem pattern st.cursor st.regions))
                      (sym row.0),
              row.1,
              (below, inr holds, sound.2),
              omega arith,
              refl,
              refl,
              refl,
            )
      ]
    where
      count_left :
          (index count i : ℕ)
          → index ≤ count
          → i < count
          → index + (count - index) - suc i ≡ count - suc i
      count_left index count i h k = omega (arith, h, k)

  nothing_found :
      (st : ByteSearchState)
      → Sound mem (length pattern) st
      → search_of st ≡ none
      → pending mem pattern st ≡ region_hits mem pattern st.cursor st.regions
  nothing_found st sound e =
      ap (λ t. t ++ region_hits mem pattern st.cursor st.regions)
        (subst
          (Finds mem pattern st.page_start st.page_candidate_index
            (st.page_candidate_count - st.page_candidate_index))
          e (finds st sound))

  carry :
      (st s : ByteSearchState) (o q : Option (Option ByteSearchRow × ByteSearchState))
      → o ≡ q
      → pending mem pattern st ≡ pending mem pattern s
      → work_left s ≤ work_left st
      → s.empty ≡ st.empty
      → s.initialized ≡ st.initialized
      → s.emitted ≡ st.emitted
      → Step s q
      → Step st o
  carry st s o q e h w f g k (inl (t, x, none_left)) = inl (t, e ∙ x, h ∙ none_left)
  carry st s o q e h w f g k (inr (row, t, x, first, match, sound, less, f', g', k')) = inr (
    row,
    t,
    e ∙ x,
    h ∙ first,
    match,
    sound,
    omega (arith, less, w),
    f' ∙ f,
    g' ∙ g,
    k' ∙ ap suc k,
  )

  cleared : ByteSearchState → ByteSearchState
  cleared st = record st { page = []; page_candidate_index = 0; page_candidate_count = 0 }

  load_ends :
      (fuel : ℕ) (st : ByteSearchState)
      → st.regions ≡ []
      → load_next_page source (length pattern) (suc fuel) st ≡ some (false, cleared st)
  unfolding load_next_page cleared
  load_ends fuel st e =
      ap
        (λ rs. elim rs [
          | [] ↦ some (false, cleared st)
          | region ∷ rest ↦ elim (load_round source (length pattern) region rest (cleared st)) [
            | stopped t ↦ some (false, t)
            | loaded t ↦ some (true, t)
            | skipped t ↦ load_loop source (length pattern) fuel t
          ]
        ])
        e

  at_regions :
      (fuel : ℕ) (st : ByteSearchState) (o : Option (Option ByteSearchRow × ByteSearchState))
      (regions : List ByteSearchRegion)
      → st.regions ≡ regions
      → Proper st.cursor regions
      → pending mem pattern st ≡ region_hits mem pattern st.cursor regions
      → ((s : ByteSearchState)
          → load_next_page source (length pattern) (suc fuel) st ≡ some (false, s)
          → o ≡ some (none, s))
      → ((s : ByteSearchState)
          → load_next_page source (length pattern) (suc fuel) st ≡ some (true, s)
          → o ≡ next_loop source pattern fuel s)
      → ((s : ByteSearchState)
          → Sound mem (length pattern) s
          → work_left s < work st.cursor regions
          → Step s (next_loop source pattern fuel s))
      → Step st o
  at_regions fuel st o [] e p h ends goes again =
      inl (cleared st, ends (cleared st) (load_ends fuel st e), unfold region_hits in h)
  at_regions fuel st o (r ∷ later) e p h ends goes again =
      let l = load_loads mem source serves pattern some_pattern fuel r later st e p in
      carry st l.0 o (next_loop source pattern fuel l.0) (goes l.0 l.1) (h ∙ sym l.7)
        (subst (λ rs. work_left l.0 ≤ work st.cursor rs) (sym e) (omega (arith, l.2))) l.3 l.4 l.5
        (again l.0 l.6 l.2)

  -- Over a source that serves a memory, on more fuel than candidates and regions are left, a call of
  -- the loop of `next` either ends without a row, and no match is left, or gives the first match that
  -- is left, with its bytes and their text, and leaves the others; its page, cursor and regions stay
  -- sound.
  pub next_loop-Step :
      (fuel : ℕ) (st : ByteSearchState)
      → Sound mem (length pattern) st
      → work_left st < fuel
      → Step st (next_loop source pattern fuel st)
  unfolding next_loop
  next_loop-Step zero st sound h = absurd (omega (arith, h))
  next_loop-Step (suc fuel) st sound h = elim (Option-cases (search_of st)) [
    | inr (i, e) ↦
        gives i st (next_loop source pattern (suc fuel) st) sound e (rw (next_loop, e) refl)
    | inl e ↦
        at_regions fuel st (next_loop source pattern (suc fuel) st) st.regions refl sound.2
          (nothing_found st sound e) (λ s q. rw (next_loop, e, q) refl)
          (λ s q. rw (next_loop, e, q) refl)
          (λ s t less. next_loop-Step fuel s t (omega (arith, less, h)))
  ]
