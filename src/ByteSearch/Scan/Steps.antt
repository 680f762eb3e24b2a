-- ===== src/ByteSearch/Scan/Steps.antt =====
-- What is left to find, and how a page that is loaded keeps it.
use ghidrasql.Prelude.{
  ℕ, ◌+◌, ◌%◌, ◌^◌, ◌≤◌, ◌<◌, ℤ, pos, pos_part, neg_part, ◌+ℤ◌, ◌-ℤ◌, ◌≤ℤ◌, ◌<ℤ◌, +ℤ_parts,
  -ℤ_parts, eq_of_parts, true, false, Option, none, some, List, [], ◌∷◌, ◌++◌, append_assoc, leb,
  ◌≡◌, refl, sym, ap, ◌∙◌, arith, inl, inr, Bool-cases, subst,
}
use ghidrasql.Memory.Words.{
  int64_max, InInt64, addr_distance, addr_add, addr_distance_lem, addr_add_lem,
}
use ghidrasql.ByteSearch.Pattern.{ByteSearchPatternByte}
use ghidrasql.ByteSearch.Regions.{byte_search_addr_distance, byte_search_addr_add, ByteSearchRegion}
use ghidrasql.ByteSearch.Scan.{
  ByteSource, ByteSearchState, cursor_at, remaining_candidates, advance_candidates,
}
use ghidrasql.ByteSearch.Scan.Enough.{remaining-add}
use ghidrasql.ByteSearch.Scan.Served.{served, hits, hits-append}

-- A source whose reads give the bytes of a memory.
abbrev pub Serves : (ℤ → ℕ) → ByteSource → Type 0
Serves mem source =
    (a : ℤ) (n : ℕ)
    → source.read_bytes a n ≡ record { ok = true; bytes = served mem a n; reported = false }

-- The matches in the regions that are left.
unfoldable pub region_hits :
    (ℤ → ℕ) → List ByteSearchPatternByte → Option ℤ → List ByteSearchRegion → List ℤ
region_hits mem pattern cursor [] = []
region_hits mem pattern cursor (r ∷ regions) =
    hits mem pattern (cursor_at r.start cursor) (remaining_candidates (cursor_at r.start cursor) r)
    ++ region_hits mem pattern none regions

-- Regions of `int64_t` addresses that are not empty and end below the greatest address.
abbrev pub Proper : Option ℤ → List ByteSearchRegion → Type 0
Proper cursor [] = Unit
Proper cursor (r ∷ regions) =
    InInt64 (cursor_at r.start cursor)
    × (cursor_at r.start cursor ≤ℤ r.end_incl)
    × (r.end_incl <ℤ int64_max)
    × Proper none regions

pub add_exact :
    (c : ℤ) (k : ℕ) → InInt64 c → c +ℤ pos k ≤ℤ int64_max → byte_search_addr_add c k ≡ c +ℤ pos k
unfolding byte_search_addr_add
add_exact c k h l = unfold addr_add in addr_add_lem c k h l

distance_exact :
    (c e : ℤ) → InInt64 c → InInt64 e → c ≤ℤ e → pos (byte_search_addr_distance c e) ≡ e -ℤ c
unfolding byte_search_addr_distance
distance_exact c e p q h = unfold addr_distance in addr_distance_lem c e p q h

pub remaining_exact :
    (c : ℤ) (r : ByteSearchRegion)
    → InInt64 c
    → c ≤ℤ r.end_incl
    → r.end_incl <ℤ int64_max
    → c +ℤ pos (remaining_candidates c r) ≡ r.end_incl +ℤ pos 1
unfolding remaining_candidates
remaining_exact c r p h l =
    exact (byte_search_addr_distance c r.end_incl)
      (distance_exact c r.end_incl p (omega (arith, p.0, h), omega (arith, l)) h)
  where
    exact : (d : ℕ) → pos d ≡ r.end_incl -ℤ c → c +ℤ pos ((d + 1) % 2 ^ 64) ≡ r.end_incl +ℤ pos 1
    exact d e =
        let difference = -ℤ_parts r.end_incl c in
        let parts = ap pos_part e in
        let other = ap neg_part e in
        let sum = +ℤ_parts c (pos ((d + 1) % 2 ^ 64)) in
        let next = +ℤ_parts r.end_incl (pos 1) in
        eq_of_parts (c +ℤ pos ((d + 1) % 2 ^ 64)) (r.end_incl +ℤ pos 1)
          (omega (arith, difference, parts, other, sum, next, p.0, l, h))

pub remaining_positive :
    (c : ℤ) (r : ByteSearchRegion)
    → InInt64 c
    → c ≤ℤ r.end_incl
    → r.end_incl <ℤ int64_max
    → 1 ≤ remaining_candidates c r
remaining_positive c r p h l =
    let e = remaining_exact c r p h l in
    let sum = +ℤ_parts c (pos (remaining_candidates c r)) in
    let next = +ℤ_parts r.end_incl (pos 1) in
    let parts = ap pos_part e in
    let other = ap neg_part e in omega (arith, sum, next, parts, other, h)

-- A step within a region stays in it.
within :
    (c : ℤ) (k : ℕ) (r : ByteSearchRegion)
    → Proper (some c) (r ∷ [])
    → k < remaining_candidates c r
    → InInt64 (c +ℤ pos k) × (c +ℤ pos k ≤ℤ r.end_incl)
within c k r p h =
    let e = remaining_exact c r p.0 p.1 p.2 in
    let all = +ℤ_parts c (pos (remaining_candidates c r)) in
    let part = +ℤ_parts c (pos k) in
    let next = +ℤ_parts r.end_incl (pos 1) in
    let parts = ap pos_part e in
    let other = ap neg_part e in
    let last : c +ℤ pos k ≤ℤ r.end_incl = omega (arith, all, part, next, parts, other, h) in
    ((omega (arith, part, p.0.0), omega (arith, last, p.2)), last)

moved :
    (c : ℤ) (k : ℕ) (r : ByteSearchRegion)
    → Proper (some c) (r ∷ [])
    → k < remaining_candidates c r
    → byte_search_addr_add c k ≡ c +ℤ pos k
moved c k r p h = add_exact c k p.0 (within c k r p h).0.1

split-hits :
    (mem : ℤ → ℕ) (pattern : List ByteSearchPatternByte) (c : ℤ) (k : ℕ) (r : ByteSearchRegion)
    (rest : List ℤ)
    → Proper (some c) (r ∷ [])
    → k < remaining_candidates c r
    → hits mem pattern c k
        ++ (hits mem pattern (c +ℤ pos k) (remaining_candidates (c +ℤ pos k) r) ++ rest)
      ≡ hits mem pattern c (remaining_candidates c r) ++ rest
split-hits mem pattern c k r rest p h =
    sym (
      append_assoc (hits mem pattern c k)
        (hits mem pattern (c +ℤ pos k) (remaining_candidates (c +ℤ pos k) r)) rest)
    ∙ ap (λ t. t ++ rest)
        (sym (
          hits-append mem pattern k c (remaining_candidates c r)
            (remaining_candidates (c +ℤ pos k) r)
            (omega (
              arith,
              subst (λ x. remaining_candidates x r + k ≡ remaining_candidates c r) (moved c k r p h)
                  (remaining-add c r k h),
            ))))

-- What a loaded page leaves alone, and the page that it leaves.
abbrev pub Keeps : ByteSearchState → ByteSearchState → Type 0
Keeps st s =
    (s.empty ≡ st.empty)
    × (s.initialized ≡ st.initialized)
    × (s.emitted ≡ st.emitted)
    × (s.page ≡ st.page)
    × (s.page_start ≡ st.page_start)
    × (s.page_candidate_index ≡ st.page_candidate_index)
    × (s.page_candidate_count ≡ st.page_candidate_count)

module _ (mem : ℤ → ℕ) (pattern : List ByteSearchPatternByte) where
  -- The candidates that are consumed and those that are left are the candidates of the region.
  pub advance-Keeps :
      (k : ℕ) (c : ℤ) (r : ByteSearchRegion) (later : List ByteSearchRegion) (st : ByteSearchState)
      → st.regions ≡ r ∷ later
      → k ≤ remaining_candidates c r
      → Proper (some c) (r ∷ later)
      → (let s = advance_candidates k c r later st in
          Keeps st s
          × Proper s.cursor s.regions
          × (hits mem pattern c k ++ region_hits mem pattern s.cursor s.regions
              ≡ region_hits mem pattern (some c) (r ∷ later)))
  unfolding advance_candidates region_hits
  advance-Keeps k c r later st e h p = elim (Bool-cases (leb (remaining_candidates c r) k)) [
    | inl done ↦
        let all : k ≡ remaining_candidates c r = ground (arith, h, done) in
        rw (done, all) ((refl, refl, refl, refl, refl, refl, refl), p.3, refl)
    | inr more ↦
        let less : k < remaining_candidates c r = ground (arith, more) in
        let one : Proper (some c) (r ∷ []) = (p.0, p.1, p.2, tt) in
        let inside = within c k r one less in
        rw (more, e, moved c k r one less)
          (
            (refl, refl, refl, refl, refl, refl, refl),
            (inside.0, inside.1, p.2, p.3),
            split-hits mem pattern c k r (region_hits mem pattern none later) one less,
          )
  ]
