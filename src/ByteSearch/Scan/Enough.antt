-- ===== src/ByteSearch/Scan/Enough.antt =====
-- The loops of the scan end: each round consumes a candidate or a region.
use ghidrasql.Prelude.{
  ℕ, zero, suc, ◌+◌, ◌-◌, ◌%◌, ◌^◌, ◌≤◌, ◌<◌, min, ◌==◌, ℤ, pos, negsuc, Bool, true, false, not,
  ◌&&◌, ◌||◌, Option, none, some, List, [], ◌∷◌, if◌then◌else◌, leb, length, drop, ◌≡◌, refl, sym,
  arith, inl, inr, Bool-cases, subst, Option-cases,
}
use ghidrasql.Memory.Words.{u64_of, i64_of}
use ghidrasql.ByteSearch.Regions.{
  byte_search_addr_distance, byte_search_addr_add, ByteSearchRegion, Search, page_candidates,
}
use ghidrasql.ByteSearch.Pattern.{ByteSearchPatternByte}
use ghidrasql.ByteSearch.Scan.{
  ByteSource, ByteSearchState, ByteSearchRow, cursor_at, remaining_candidates, advance_candidates,
  served_count, Load, stopped, loaded, skipped, load_round, load_loop, load_next_page,
  find_candidate, next_loop, next, init, match_row,
}

-- The candidates and the regions that are left.
unfoldable pub work : Option ℤ → List ByteSearchRegion → ℕ
work cursor [] = 0
work cursor (r ∷ regions) =
    suc (remaining_candidates (cursor_at r.start cursor) r + work none regions)

abbrev pub work_left : ByteSearchState → ℕ
work_left st = work st.cursor st.regions

u64-i64 : (w : ℕ) → w < 2 ^ 64 → u64_of (i64_of w) ≡ w
unfolding u64_of i64_of
u64-i64 w h = ground arith

u64_bound : (a : ℤ) → u64_of a < 2 ^ 64
unfolding u64_of
u64_bound (pos n) = omega arith
u64_bound (negsuc n) = omega arith

pub distance-add :
    (c e : ℤ) (k : ℕ)
    → k ≤ byte_search_addr_distance c e
    → byte_search_addr_distance (byte_search_addr_add c k) e + k ≡ byte_search_addr_distance c e
unfolding byte_search_addr_distance byte_search_addr_add
distance-add c e k h =
    rw (u64-i64 ((u64_of c + k) % 2 ^ 64) (omega arith))
      (omega (arith, h, u64_bound c, u64_bound e))

dist_bound : (c e : ℤ) → byte_search_addr_distance c e < 2 ^ 64
unfolding byte_search_addr_distance
dist_bound c e = omega arith

round_up :
    (d d' k : ℕ)
    → d < 2 ^ 64
    → k < (d + 1) % 2 ^ 64
    → d' + k ≡ d
    → (d' + 1) % 2 ^ 64 + k ≡ (d + 1) % 2 ^ 64
round_up d d' k b h e = omega (arith, b, h, e)

below : (d k : ℕ) → d < 2 ^ 64 → k < (d + 1) % 2 ^ 64 → k ≤ d
below d k b h = omega (arith, b, h)

pub remaining-add :
    (c : ℤ) (r : ByteSearchRegion) (k : ℕ)
    → k < remaining_candidates c r
    → remaining_candidates (byte_search_addr_add c k) r + k ≡ remaining_candidates c r
unfolding remaining_candidates
remaining-add c r k h =
    let d = byte_search_addr_distance c r.end_incl in
    round_up d (byte_search_addr_distance (byte_search_addr_add c k) r.end_incl) k
      (dist_bound c r.end_incl) h
      (distance-add c r.end_incl k (below d k (dist_bound c r.end_incl) h))

pub advance-less :
    (count : ℕ) (cursor : ℤ) (r : ByteSearchRegion) (later : List ByteSearchRegion)
    (st : ByteSearchState)
    → (count ≡ 0 → remaining_candidates cursor r ≡ 0)
    → st.regions ≡ r ∷ later
    → work_left (advance_candidates count cursor r later st)
      < suc (remaining_candidates cursor r + work none later)
unfolding advance_candidates work
advance-less count cursor r later st h e =
    elim (Bool-cases (leb (remaining_candidates cursor r) count)) [
      | inl k ↦ rw k (omega arith)
      | inr k ↦ rw (k, e) (omega (arith, consumed k))
    ]
  where
    positive : (count == 0) ≡ false → 0 < count
    positive n = ground (arith, n)

    consumed :
        leb (remaining_candidates cursor r) count ≡ false
        → remaining_candidates (byte_search_addr_add cursor count) r < remaining_candidates cursor r
    consumed k = elim (Bool-cases (count == 0)) [
      | inl z ↦ absurd (ground (arith, h, z, k))
      | inr n ↦
          let less : count < remaining_candidates cursor r = ground (arith, k) in
          omega (arith, remaining-add cursor r count less, positive n)
    ]

-- How much is left behind a round that goes on or returns true.
abbrev After : ℕ → Load → Type 0
After n (stopped s) = Unit
After n (loaded s) = work_left s < n
After n (skipped s) = work_left s < n

round-After :
    (n : ℕ) (failed empty : Bool) (s t : ByteSearchState)
    → work_left t < n
    → After n (if failed then stopped s else if empty then skipped t else loaded t)
round-After n true empty s t h = tt
round-After n false true s t h = h
round-After n false false s t h = h

load_round-After :
    (source : ByteSource) (pattern_len : ℕ) (r : ByteSearchRegion) (later : List ByteSearchRegion)
    (st : ByteSearchState)
    → st.regions ≡ r ∷ later
    → After (work st.cursor (r ∷ later)) (load_round source pattern_len r later st)
unfolding load_round work
load_round-After source pattern_len r later st e =
    let cursor = cursor_at r.start st.cursor in
    let requested = min (remaining_candidates cursor r) page_candidates in
    let read = source.read_bytes cursor (requested + pattern_len - 1) in
    let count = served_count pattern_len requested read in
    let consumed = if count == 0 then requested else count in
    let filled : ByteSearchState = record st {
      page = read.bytes;
      page_start = cursor;
      cursor = some cursor;
      page_candidate_count = count;
    } in
    round-After (suc (remaining_candidates cursor r + work none later))
      (not read.ok && read.reported) (count == 0)
      (record filled { empty = true; page_candidate_count = 0 })
      (advance_candidates consumed cursor r later filled)
      (advance-less consumed cursor r later filled
        (no_progress count (remaining_candidates cursor r)) e)
  where
    no_progress :
        (count remaining : ℕ)
        → (if count == 0 then min remaining page_candidates else count) ≡ 0
        → remaining ≡ 0
    no_progress count remaining h = ground (arith, h)

-- What a loop returns is given, and less is left where it returns true.
abbrev pub Loaded : ℕ → Option (Bool × ByteSearchState) → Type 0
Loaded n o =
    (more : Bool) × (s : ByteSearchState) × (o ≡ some (more, s)) × (more ≡ true → work_left s < n)

at_round :
    (source : ByteSource) (pattern_len fuel m n : ℕ) (l : Load)
    → m ≤ n
    → After m l
    → ((s : ByteSearchState) → work_left s < m → Loaded n (load_loop source pattern_len fuel s))
    → Loaded n (elim l [
      | stopped s ↦ some (false, s)
      | loaded s ↦ some (true, s)
      | skipped s ↦ load_loop source pattern_len fuel s
    ])
at_round source pattern_len fuel m n (stopped s) h a again =
    (false, s, refl, λ e. absurd (ground arith))
at_round source pattern_len fuel m n (loaded s) h a again =
    (true, s, refl, λ e. omega (arith, a, h))
at_round source pattern_len fuel m n (skipped s) h a again = again s a

at_regions :
    (source : ByteSource) (pattern_len fuel n : ℕ) (st : ByteSearchState)
    (regions : List ByteSearchRegion)
    → st.regions ≡ regions
    → work_left st ≤ n
    → ((s : ByteSearchState)
        → work_left s < work_left st
        → Loaded n (load_loop source pattern_len fuel s))
    → Loaded n (elim regions [
      | [] ↦ some (false, st)
      | region ∷ later ↦ elim (load_round source pattern_len region later st) [
        | stopped s ↦ some (false, s)
        | loaded s ↦ some (true, s)
        | skipped s ↦ load_loop source pattern_len fuel s
      ]
    ])
at_regions source pattern_len fuel n st [] e h again = (false, st, refl, λ f. absurd (ground arith))
at_regions source pattern_len fuel n st (r ∷ later) e h again =
    at_round source pattern_len fuel (work_left st) n (load_round source pattern_len r later st) h
      (subst (λ x. After (work st.cursor x) (load_round source pattern_len r later st)) (sym e)
        (load_round-After source pattern_len r later st e))
      again

load_loop-Loaded :
    (source : ByteSource) (pattern_len fuel n : ℕ) (st : ByteSearchState)
    → work_left st < fuel
    → work_left st ≤ n
    → Loaded n (load_loop source pattern_len fuel st)
unfolding load_loop
load_loop-Loaded source pattern_len zero n st h k = absurd (omega (arith, h))
load_loop-Loaded source pattern_len (suc fuel) n st h k =
    at_regions source pattern_len fuel n st st.regions refl k (λ s less.
      load_loop-Loaded source pattern_len fuel n s (omega (arith, less, h))
        (omega (arith, less, k)))

pub load_next_page-Loaded :
    (source : ByteSource) (pattern_len fuel : ℕ) (st : ByteSearchState)
    → work_left st < fuel
    → Loaded (work_left st) (load_next_page source pattern_len fuel st)
unfolding load_next_page
load_next_page-Loaded source pattern_len fuel st h =
    load_loop-Loaded source pattern_len fuel (work_left st)
      (record st { page = []; page_candidate_index = 0; page_candidate_count = 0 }) h (omega arith)

-- What the search returns is given.
abbrev pub Returns : Option (Option ByteSearchRow × ByteSearchState) → Type 0
Returns o = (row : Option ByteSearchRow) × (s : ByteSearchState) × (o ≡ some (row, s))

pub next_loop-Returns :
    (source : ByteSource) (pattern : List ByteSearchPatternByte) (fuel : ℕ) (st : ByteSearchState)
    → work_left st < fuel
    → Returns (next_loop source pattern fuel st)
unfolding next_loop
next_loop-Returns source pattern zero st h = absurd (omega (arith, h))
next_loop-Returns source pattern (suc fuel) st h =
    elim (Option-cases (
      find_candidate pattern (drop st.page_candidate_index st.page) st.page_candidate_index
        (st.page_candidate_count - st.page_candidate_index))) [
          | inr (i, e) ↦
              rw (next_loop, e)
                (
                  some (match_row pattern st i),
                  record st { emitted = suc st.emitted; page_candidate_index = suc i },
                  refl,
                )
          | inl e ↦
              let l = load_next_page-Loaded source (length pattern) (suc fuel) st h in
              elim (Bool-cases l.0) [
                | inl t ↦
                    rw (next_loop, e, l.2, t)
                      (next_loop-Returns source pattern fuel l.1 (omega (arith, l.3 t, h)))
                | inr f ↦ rw (next_loop, e, l.2, f) (none, l.1, refl)
              ]
        ]

-- The state in which the loop of `next` runs.
abbrev pub opened : ByteSource → Search → ByteSearchState → ByteSearchState
opened source search st =
    if st.initialized then st else init source search (record st { initialized = true })

-- A call of `next` returns, for every source and every answer of its reads, on more fuel than there
-- are candidates and regions left.
pub next-Returns :
    (source : ByteSource) (search : Search) (fuel : ℕ) (st : ByteSearchState)
    → work_left (opened source search st) < fuel
    → Returns (next source search fuel st)
unfolding next
next-Returns source search fuel st h =
    let s = opened source search st in
    elim (Bool-cases
      (s.empty || (not (search.max_results == 0) && leb search.max_results s.emitted))) [
        | inl e ↦ rw e (none, s, refl)
        | inr e ↦ rw e (next_loop-Returns source search.pattern fuel s h)
      ]
