-- ===== src/Memory/Regions/Gaps.antt =====
-- The stretches of the spans of items that no block holds.
use ghidrasql.Prelude.{
  any-append, ℤ, pos, ◌+ℤ◌, ◌-ℤ◌, +ℤ_parts, -ℤ_parts, ◌≤ℤ◌, ◌<ℤ◌, ltb_ℤ, leb_ℤ, Bool, true, false,
  not, ◌&&◌, ◌||◌, none, some, List, [], ◌∷◌, ◌≡◌, refl, ap, ◌∙◌, inl, inr, arith, if◌then◌else◌,
  any, Bool-cases,
}
use ghidrasql.Memory.Regions.{MemRegion, gap, gap_loop, gaps}
use ghidrasql.Memory.Regions.Blocks.{holds, IsLadder}
use ghidrasql.Memory.Regions.Spans.{span_holds, IsSpanLadder}

-- No region of a ladder holds an address at or below its start.
ladder_above :
    (back a : ℤ) (rs : List MemRegion)
    → IsLadder (some back) rs
    → a ≤ℤ back
    → any (holds a) rs ≡ false
ladder_above back a [] l h = refl
ladder_above back a (r ∷ rs) (p, q, l) h = ground (arith, ladder_above r.end_incl a rs l)

behind_back : (back : ℤ) (rs : List MemRegion) → IsLadder (some back) rs → IsLadder none rs
behind_back back [] l = tt
behind_back back (r ∷ rs) (p, q, l) = (refl, q, l)

abbrev span_gap : ℤ → ℤ → ℤ → List MemRegion → Bool
span_gap a cur last bs = span_holds a (cur, last) && not (any (holds a) bs)

abbrev front : ℤ → ℤ → List MemRegion
front cur start = if ltb_ℤ cur start then gap cur (start -ℤ pos 1) ∷ [] else []

front-holds : (cur start a : ℤ) → any (holds a) (front cur start) ≡ (leb_ℤ cur a && ltb_ℤ a start)
front-holds cur start a = let prev = -ℤ_parts start (pos 1) in ground arith

pass_step :
    (cur last a : ℤ) (b : MemRegion) (x : Bool)
    → ltb_ℤ b.end_incl cur ≡ true
    → (span_holds a (cur, last) && not x) ≡ (span_holds a (cur, last) && not (holds a b || x))
pass_step cur last a b x h = ground arith

before_step :
    (cur last a : ℤ) (b : MemRegion) (x : Bool)
    → ltb_ℤ last b.start ≡ true
    → b.start ≤ℤ b.end_incl
    → (a ≤ℤ b.end_incl → x ≡ false)
    → (span_holds a (cur, last) || false) ≡ (span_holds a (cur, last) && not (holds a b || x))
before_step cur last a b x h k f = ground arith

last_step :
    (cur last a : ℤ) (b : MemRegion) (x : Bool)
    → ltb_ℤ last b.start ≡ false
    → leb_ℤ last b.end_incl ≡ true
    → (a ≤ℤ b.end_incl → x ≡ false)
    → (leb_ℤ cur a && ltb_ℤ a b.start) ≡ (span_holds a (cur, last) && not (holds a b || x))
last_step cur last a b x h k f = ground arith

over_step :
    (cur last a : ℤ) (b : MemRegion) (x : Bool)
    → ltb_ℤ b.end_incl cur ≡ false
    → leb_ℤ last b.end_incl ≡ false
    → b.start ≤ℤ b.end_incl
    → (a ≤ℤ b.end_incl → x ≡ false)
    → ((leb_ℤ cur a && ltb_ℤ a b.start) || (span_holds a (b.end_incl +ℤ pos 1, last) && not x))
      ≡ (span_holds a (cur, last) && not (holds a b || x))
over_step cur last a b x g h k f = let next = +ℤ_parts b.end_incl (pos 1) in ground arith

next_le : (x y : ℤ) → leb_ℤ y x ≡ false → x +ℤ pos 1 ≤ℤ y
next_le x y h = let next = +ℤ_parts x (pos 1) in ground arith

-- What one span adds: its addresses that no block holds. The blocks that it passes over hold none
-- behind it.
gap_loop-holds :
    (cur last : ℤ) (bs : List MemRegion) (a : ℤ)
    → cur ≤ℤ last
    → IsLadder none bs
    → any (holds a) (gap_loop cur last bs).0 ≡ span_gap a cur last bs
unfolding gap_loop
gap_loop-holds cur last [] a k l = ground arith
gap_loop-holds cur last (b ∷ bs) a k (p, q, l) =
    let x = any (holds a) bs in
    let f = ladder_above b.end_incl a bs l in
    let rest = gap_loop-holds (b.end_incl +ℤ pos 1) last bs a in
    elim (Bool-cases (ltb_ℤ b.end_incl cur)) [
      | inl c1 ↦ rw c1 (
          gap_loop-holds cur last bs a k (behind_back b.end_incl bs l)
          ∙ pass_step cur last a b x c1)
      | inr c1 ↦ elim (Bool-cases (ltb_ℤ last b.start)) [
        | inl c2 ↦ rw (c1, c2) (before_step cur last a b x c2 q f)
        | inr c2 ↦ elim (Bool-cases (leb_ℤ last b.end_incl)) [
          | inl c3 ↦ rw (c1, c2, c3) (front-holds cur b.start a ∙ last_step cur last a b x c2 c3 f)
          | inr c3 ↦
              rw (c1, c2, c3)
                (any-append (holds a) (front cur b.start) (gap_loop (b.end_incl +ℤ pos 1) last bs).0
                  ∙ ap (λ t. t || any (holds a) (gap_loop (b.end_incl +ℤ pos 1) last bs).0)
                      (front-holds cur b.start a)
                  ∙ ap (λ t. (leb_ℤ cur a && ltb_ℤ a b.start) || t)
                      (rest (next_le b.end_incl last c3) (behind_back b.end_incl bs l))
                  ∙ over_step cur last a b x c1 c3 q f)
        ]
      ]
    ]

-- The blocks that stay: a ladder that holds the same addresses behind the span.
gap_loop-rest :
    (cur last : ℤ) (bs : List MemRegion) (a : ℤ)
    → cur ≤ℤ last
    → IsLadder none bs
    → IsLadder none (gap_loop cur last bs).1
      × (last <ℤ a → any (holds a) (gap_loop cur last bs).1 ≡ any (holds a) bs)
unfolding gap_loop
gap_loop-rest cur last [] a k l = (tt, λ h. refl)
gap_loop-rest cur last (b ∷ bs) a k (p, q, l) =
    let pass = gap_loop-rest cur last bs a k (behind_back b.end_incl bs l) in
    let rest = gap_loop-rest (b.end_incl +ℤ pos 1) last bs a in
    elim (Bool-cases (ltb_ℤ b.end_incl cur)) [
      | inl c1 ↦ rw c1 (pass.0, λ h. pass.1 h ∙ behind_step cur last a b (any (holds a) bs) c1 k h)
      | inr c1 ↦ elim (Bool-cases (ltb_ℤ last b.start)) [
        | inl c2 ↦ rw (c1, c2) ((refl, q, l), λ h. refl)
        | inr c2 ↦ elim (Bool-cases (leb_ℤ last b.end_incl)) [
          | inl c3 ↦ rw (c1, c2, c3) ((refl, q, l), λ h. refl)
          | inr c3 ↦
              let r = rest (next_le b.end_incl last c3) (behind_back b.end_incl bs l) in
              rw (c1, c2, c3) (r.0, λ h. r.1 h ∙ over_behind last a b (any (holds a) bs) c3 h)
        ]
      ]
    ]
  where
    behind_step :
        (cur last a : ℤ) (b : MemRegion) (x : Bool)
        → ltb_ℤ b.end_incl cur ≡ true
        → cur ≤ℤ last
        → last <ℤ a
        → x ≡ (holds a b || x)
    behind_step cur last a b x h k m = ground arith

    over_behind :
        (last a : ℤ) (b : MemRegion) (x : Bool)
        → leb_ℤ last b.end_incl ≡ false
        → last <ℤ a
        → x ≡ (holds a b || x)
    over_behind last a b x h k = ground arith

spans_above :
    (back a : ℤ) (spans : List (ℤ × ℤ))
    → IsSpanLadder back spans
    → any (span_holds a) spans ≡ true
    → back <ℤ a
spans_above back a [] l h = cc
spans_above back a ((s, e) ∷ spans) (p, q, l) h = elim (Bool-cases (span_holds a (s, e))) [
  | inl c ↦ ground arith
  | inr c ↦ let up = spans_above e a spans l (ground arith) in ground arith
]

one_span :
    (s m x y : Bool) → (m ≡ true → y ≡ x) → ((s && not x) || (m && not y)) ≡ ((s || m) && not x)
one_span s m x y h = ground arith

-- For spans, none of them empty, each of which starts behind the end of the one before it, and regions
-- of blocks that are so too, the gaps hold exactly the addresses of the spans that no block holds.
pub gaps-holds :
    (back : ℤ) (spans : List (ℤ × ℤ)) (bs : List MemRegion) (a : ℤ)
    → IsSpanLadder back spans
    → IsLadder none bs
    → any (holds a) (gaps spans bs) ≡ (any (span_holds a) spans && not (any (holds a) bs))
unfolding gaps
gaps-holds back [] bs a k l = refl
gaps-holds back ((first, last) ∷ spans) bs a (p, q, k) l =
    let r = gap_loop-rest first last bs a q l in
    let rest = (gap_loop first last bs).1 in
    any-append (holds a) (gap_loop first last bs).0 (gaps spans rest)
    ∙ ap (λ t. t || any (holds a) (gaps spans rest)) (gap_loop-holds first last bs a q l)
    ∙ ap (λ t. span_gap a first last bs || t) (gaps-holds last spans rest a k r.0)
    ∙ one_span (span_holds a (first, last)) (any (span_holds a) spans) (any (holds a) bs)
        (any (holds a) rest) (λ m. r.1 (spans_above last a spans k m))
