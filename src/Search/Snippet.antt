-- ===== src/Search/Snippet.antt =====
-- `search_snippet`: how long it may be, and that it shows a term of the query where there is one.
use ghidrasql.Prelude.{
  ℕ, ◌+◌, ◌-◌, ◌*◌, min, ◌≤◌, Bool, true, false, Option, none, some, List, [], ◌∷◌, ◌++◌, ◌≡◌, inl,
  inr, refl, ap, arith, ltb, ◌==◌, if◌then◌else◌, Bytes, eqb, eqb_iff, elem, find, contains, length,
  length-append, length-take, is_empty, drop, All, Occurs, Bool-cases, ℤ, pos, negsuc, substr,
}
use ghidrasql.Text.{tokenize, squash_ws, lower_ascii, normalize_text}
use ghidrasql.Text.Words.{IsWord, tokenize-IsWord}
use ghidrasql.Search.Match.{find-split}
use ghidrasql.Search.Cut.{
  substr-Occurs, lower_ascii-append, lower_ascii-substr, length-lower_ascii, Occurs-append_left,
  Occurs-append_right,
}
use ghidrasql.Text.Sizes.{tokenize-lengths, normalize_text-length}
use ghidrasql.Search.{
  clamp_radius, better_hit, hit_loop, dots, head_snippet, snippet_start, snippet_end,
  window_snippet, search_snippet,
}

-- Where the snippet is centred: a term of the query stands there.
pub record IsHit (haystack : Bytes) (terms : List Bytes) (at size : ℕ) : Type 0 where
  pub term : Bytes
  pub listed : elem term terms ≡ true
  pub place : Occurs term haystack
  pub at_place : length (place.before) ≡ at
  pub sized : length term ≡ size

abbrev pub HitIn : Bytes → List Bytes → Option (ℕ × ℕ) → Type 0
HitIn haystack terms none = Unit
HitIn haystack terms (some (p, n)) = IsHit haystack terms p n

elem_head : (t : Bytes) (ts : List Bytes) → elem t (t ∷ ts) ≡ true
unfolding elem
elem_head t ts = rw ((eqb_iff t t).1 refl)

elem_tail : (x t : Bytes) (ts : List Bytes) → elem x ts ≡ true → elem x (t ∷ ts) ≡ true
unfolding elem
elem_tail x t ts h = ground arith

better_hit-HitIn :
    (haystack term : Bytes) (terms : List Bytes) (hit : Option (ℕ × ℕ))
    → elem term terms ≡ true
    → HitIn haystack terms hit
    → HitIn haystack terms (better_hit haystack term hit)
unfolding better_hit
better_hit-HitIn haystack [] terms hit e h = h
better_hit-HitIn haystack (d ∷ term) terms hit e h =
    by_find (find (d ∷ term) haystack) (find-split (d ∷ term) haystack) hit h
  where
    fresh :
        (at : ℕ)
        → (o : Occurs (d ∷ term) haystack) × (length (o.before) ≡ at)
        → IsHit haystack terms at (length (d ∷ term))
    fresh at (o, q) = record { term = d ∷ term; listed = e; place = o; at_place = q; sized = refl }

    by_find :
        (found : Option ℕ)
        → ((i : ℕ) → found ≡ some i → (o : Occurs (d ∷ term) haystack) × (length (o.before) ≡ i))
        → (old : Option (ℕ × ℕ)) → HitIn haystack terms old
        → HitIn haystack terms (elim found [
          | none ↦ old
          | some at ↦ elim old [
            | none ↦ some (at, length (d ∷ term))
            | some (p, n) ↦ if ltb at p then some (at, length (d ∷ term)) else some (p, n)
          ]
        ])
    by_find none f old k = k
    by_find (some at) f none k = fresh at (f at refl)
    by_find (some at) f (some (p, n)) k = elim (Bool-cases (ltb at p)) [
      | inl lt ↦ rw lt (fresh at (f at refl))
      | inr ge ↦ rw ge k
    ]

hit_loop-HitIn :
    (haystack : Bytes) (terms ts : List Bytes) (hit : Option (ℕ × ℕ))
    → ((t : Bytes) → elem t ts ≡ true → elem t terms ≡ true)
    → HitIn haystack terms hit
    → HitIn haystack terms (hit_loop haystack ts hit)
unfolding hit_loop
hit_loop-HitIn haystack terms [] hit sub h = h
hit_loop-HitIn haystack terms (t ∷ ts) hit sub h =
    hit_loop-HitIn haystack terms ts (better_hit haystack t hit) (λ x m. sub x (elem_tail x t ts m))
      (better_hit-HitIn haystack t terms hit (sub t (elem_head t ts)) h)

abbrev is_some : Option (ℕ × ℕ) → Bool
is_some none = false
is_some (some x) = true

better_hit_keeps :
    (haystack term : Bytes) (hit : Option (ℕ × ℕ))
    → is_some hit ≡ true
    → is_some (better_hit haystack term hit) ≡ true
unfolding better_hit
better_hit_keeps haystack term hit h = ground arith

better_hit_finds :
    (haystack term : Bytes) (hit : Option (ℕ × ℕ))
    → is_empty term ≡ false
    → contains haystack term ≡ true
    → is_some (better_hit haystack term hit) ≡ true
unfolding better_hit contains
better_hit_finds haystack term hit e h = ground arith

hit_loop_keeps :
    (haystack : Bytes) (ts : List Bytes) (hit : Option (ℕ × ℕ))
    → is_some hit ≡ true
    → is_some (hit_loop haystack ts hit) ≡ true
unfolding hit_loop
hit_loop_keeps haystack [] hit h = h
hit_loop_keeps haystack (t ∷ ts) hit h =
    hit_loop_keeps haystack ts (better_hit haystack t hit) (better_hit_keeps haystack t hit h)

hit_loop_finds :
    (haystack : Bytes) (ts : List Bytes) (hit : Option (ℕ × ℕ)) (t : Bytes)
    → All IsWord ts
    → elem t ts ≡ true
    → contains haystack t ≡ true
    → is_some (hit_loop haystack ts hit) ≡ true
unfolding hit_loop elem
hit_loop_finds haystack [] hit t w m c = cc
hit_loop_finds haystack (u ∷ ts) hit t w m c = elim (Bool-cases (eqb t u)) [
  | inl e ↦
      let q = (eqb_iff t u).0 e in
      hit_loop_keeps haystack ts (better_hit haystack u hit)
        (better_hit_finds haystack u hit w.0.0 (rw q at c))
  | inr e ↦ hit_loop_finds haystack ts (better_hit haystack u hit) t w.1 (ground arith) c
]

window_bounds :
    (cleaned : Bytes) (radius at size : ℕ)
    → at + size ≤ length cleaned
    → (snippet_start radius at ≤ at)
      × (at + size
          ≤ snippet_start radius at
            + (snippet_end cleaned radius at size - snippet_start radius at))
unfolding snippet_start snippet_end
window_bounds cleaned radius at size h = ground arith

window_snippet-Occurs :
    (cleaned term : Bytes) (radius : ℕ) (o : Occurs term (lower_ascii cleaned))
    → Occurs term (lower_ascii (window_snippet cleaned radius (length (o.before)) (length term)))
unfolding window_snippet
window_snippet-Occurs cleaned term radius o = right (ltb 0 start) (ltb end (length cleaned))
  where
    start : ℕ
    start = snippet_start radius (length (o.before))

    end : ℕ
    end = snippet_end cleaned radius (length (o.before)) (length term)

    fits : length (o.before) + length term ≤ length cleaned
    fits = omega (
      arith,
      ap length (o.split),
      length-lower_ascii cleaned,
      length-append (o.before) (term ++ o.after),
      length-append term (o.after),
    )

    inner : Occurs term (lower_ascii (substr start (end - start) cleaned))
    inner = rw (lower_ascii-substr start (end - start) cleaned) (
        substr-Occurs start (end - start) term (lower_ascii cleaned) o
          (window_bounds cleaned radius (length (o.before)) (length term) fits).0
          (window_bounds cleaned radius (length (o.before)) (length term) fits).1)

    left :
        (b : Bool)
        → Occurs term (
            lower_ascii (
              if b
              then dots ++ substr start (end - start) cleaned
              else substr start (end - start) cleaned))
    left true =
        rw (lower_ascii-append dots (substr start (end - start) cleaned))
          (Occurs-append_left term (lower_ascii dots) _ inner)
    left false = inner

    right :
        (b d : Bool)
        → Occurs term (
            lower_ascii (
              if d
              then (if b
                  then dots ++ substr start (end - start) cleaned
                  else substr start (end - start) cleaned)
                ++ dots
              else (if b
                  then dots ++ substr start (end - start) cleaned
                  else substr start (end - start) cleaned)))
    right b true =
        rw
          (lower_ascii-append
            (if b
              then dots ++ substr start (end - start) cleaned
              else substr start (end - start) cleaned)
            dots)
          (Occurs-append_right term _ (lower_ascii dots) (left b))
    right b false = left b

term-length :
    (ts : List Bytes) (limit : ℕ) (t : Bytes)
    → All (λ w. length w ≤ limit) ts
    → elem t ts ≡ true
    → length t ≤ limit
unfolding elem
term-length [] limit t h m = cc
term-length (u ∷ ts) limit t h m = elim (Bool-cases (eqb t u)) [
  | inl e ↦ rw ((eqb_iff t u).0 e) (h.0)
  | inr e ↦ term-length ts limit t h.1 (ground arith)
]

dots_before : (b : Bool) (s : Bytes) → length (if b then dots ++ s else s) ≤ length s + 3
dots_before true s = omega arith
dots_before false s = omega arith

dots_behind : (b : Bool) (s : Bytes) → length (if b then s ++ dots else s) ≤ length s + 3
dots_behind true s = omega (arith, length-append s dots)
dots_behind false s = omega arith

window_size :
    (cleaned : Bytes) (radius at size : ℕ)
    → snippet_end cleaned radius at size - snippet_start radius at ≤ size + 2 * radius
unfolding snippet_start snippet_end
window_size cleaned radius at size = ground arith

length-substr : (start size : ℕ) (s : Bytes) → length (substr start size s) ≤ size
length-substr start size s = omega (arith, length-take size (drop start s))

length-window_snippet :
    (cleaned : Bytes) (radius at size : ℕ)
    → length (window_snippet cleaned radius at size) ≤ size + 2 * radius + 6
unfolding window_snippet
length-window_snippet cleaned radius at size =
    let start = snippet_start radius at in
    let end = snippet_end cleaned radius at size in
    let out = substr start (end - start) cleaned in
    let led : Bytes = if ltb 0 start then dots ++ out else out in
    omega (
      arith,
      dots_behind (ltb end (length cleaned)) led,
      dots_before (ltb 0 start) out,
      length-substr start (end - start) cleaned,
      window_size cleaned radius at size,
    )

length-head_snippet :
    (cleaned : Bytes) (radius : ℕ) → length (head_snippet cleaned radius) ≤ 2 * radius + 3
unfolding head_snippet
length-head_snippet cleaned radius =
    elim (Bool-cases (min (radius * 2) (length cleaned) == length cleaned)) [
      | inl e ↦ rw e (ground arith)
      | inr e ↦ rw e (
          omega (
            arith,
            length-append (substr 0 (min (radius * 2) (length cleaned)) cleaned) dots,
            length-substr 0 (min (radius * 2) (length cleaned)) cleaned,
          ))
    ]

clamp_radius-le : (radius : ℤ) → clamp_radius radius ≤ 512
unfolding clamp_radius
clamp_radius-le (pos n) = ground arith
clamp_radius-le (negsuc n) = omega arith

-- A snippet is at most 1030 bytes longer than the query, whatever the text and the radius.
pub search_snippet-length :
    (text query : Bytes) (radius : ℤ)
    → length (search_snippet text query radius) ≤ length query + 1030
unfolding search_snippet
search_snippet-length [] query radius = omega arith
search_snippet-length (c ∷ text) query radius =
    bounded (hit_loop (lower_ascii (squash_ws (c ∷ text))) (tokenize (normalize_text query)) none) (
      hit_loop-HitIn (lower_ascii (squash_ws (c ∷ text))) (tokenize (normalize_text query))
        (tokenize (normalize_text query)) none (λ x y. y) tt)
  where
    bounded :
        (hit : Option (ℕ × ℕ))
        → HitIn (lower_ascii (squash_ws (c ∷ text))) (tokenize (normalize_text query)) hit
        → length (elim hit [
          | none ↦ head_snippet (squash_ws (c ∷ text)) (clamp_radius radius)
          | some (p, n) ↦ window_snippet (squash_ws (c ∷ text)) (clamp_radius radius) p n
        ])
          ≤ length query + 1030
    bounded none h = omega (
      arith,
      length-head_snippet (squash_ws (c ∷ text)) (clamp_radius radius),
      clamp_radius-le radius,
    )
    bounded (some (p, n)) h = omega (
      arith,
      length-window_snippet (squash_ws (c ∷ text)) (clamp_radius radius) p n,
      clamp_radius-le radius,
      term-length (tokenize (normalize_text query)) (length (normalize_text query)) h.term
          (tokenize-lengths (normalize_text query)) h.listed,
      normalize_text-length query,
      h.sized,
    )

-- If some token of the normalised query stands in the lower-cased squashed text, the lower-cased
-- snippet holds a token of the query.
pub search_snippet_shows :
    (text query : Bytes) (radius : ℤ) (t : Bytes)
    → is_empty text ≡ false
    → elem t (tokenize (normalize_text query)) ≡ true
    → contains (lower_ascii (squash_ws text)) t ≡ true
    → (term : Bytes) × (elem term (tokenize (normalize_text query)) ≡ true)
      × Occurs term (lower_ascii (search_snippet text query radius))
unfolding search_snippet
search_snippet_shows [] query radius t n m c = cc
search_snippet_shows (d ∷ text) query radius t n m c =
    shown (hit_loop (lower_ascii (squash_ws (d ∷ text))) (tokenize (normalize_text query)) none)
      (hit_loop_finds (lower_ascii (squash_ws (d ∷ text))) (tokenize (normalize_text query)) none t
        (tokenize-IsWord (normalize_text query)) m c)
      (hit_loop-HitIn (lower_ascii (squash_ws (d ∷ text))) (tokenize (normalize_text query))
        (tokenize (normalize_text query)) none (λ x y. y) tt)
  where
    shown :
        (hit : Option (ℕ × ℕ))
        → is_some hit ≡ true
        → HitIn (lower_ascii (squash_ws (d ∷ text))) (tokenize (normalize_text query)) hit
        → (term : Bytes) × (elem term (tokenize (normalize_text query)) ≡ true)
          × Occurs term (
              lower_ascii (elim hit [
                | none ↦ head_snippet (squash_ws (d ∷ text)) (clamp_radius radius)
                | some (p, n) ↦ window_snippet (squash_ws (d ∷ text)) (clamp_radius radius) p n
              ]))
    shown none e h = cc
    shown (some (p, n)) e h = (
      h.term,
      h.listed,
      rw (← h.at_place, ← h.sized)
          (window_snippet-Occurs (squash_ws (d ∷ text)) h.term (clamp_radius radius) h.place),
    )
