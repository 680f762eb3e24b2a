-- ===== src/Memory/Regions/Spans.antt =====
-- Which addresses the merged spans of the items hold.
use ghidrasql.Prelude.{
  ℤ, pos, +ℤ_parts, ◌≤ℤ◌, ◌<ℤ◌, ltb_ℤ, leb_ℤ, max_ℤ, min_ℤ, Bool, true, false, ◌&&◌, ◌||◌, List, [],
  ◌∷◌, ◌≡◌, refl, sym, ap, ◌∙◌, inl, inr, arith, any, Pairwise, All, All-imp, Bool-cases,
}
use ghidrasql.Memory.Words.{int64_max}
use ghidrasql.Memory.Items.{MemAttributionItem}
use ghidrasql.Memory.Items.Active.{StartsInOrder}
use ghidrasql.Memory.Regions.{joins, span_loop, item_spans}
use ghidrasql.Memory.Regions.Blocks.{in_window, empty_span, leb-max, leb-min}

abbrev pub span_holds : ℤ → ℤ × ℤ → Bool
span_holds a (s, e) = leb_ℤ s a && leb_ℤ a e

abbrev pub item_holds : ℤ → MemAttributionItem → Bool
item_holds a item = leb_ℤ item.start a && leb_ℤ a item.end_incl

-- An item clipped to the window holds its own addresses of the window.
clip-holds :
    (window_lo window_hi : ℤ) (item : MemAttributionItem) (a : ℤ)
    → span_holds a (max_ℤ item.start window_lo, min_ℤ item.end_incl window_hi)
      ≡ (item_holds a item && in_window window_lo window_hi a)
clip-holds window_lo window_hi item a =
    rw (leb-max item.start window_lo a, leb-min item.end_incl window_hi a)
      (regroup (leb_ℤ item.start a) (leb_ℤ window_lo a) (leb_ℤ a item.end_incl) (leb_ℤ a window_hi))
  where
    regroup : (x u y v : Bool) → ((x && u) && (y && v)) ≡ ((x && y) && (u && v))
    regroup x u y v = ground arith

join-holds :
    (first last s e a : ℤ)
    → first ≤ℤ last
    → first ≤ℤ s
    → s ≤ℤ e
    → e ≤ℤ int64_max
    → joins last s ≡ true
    → span_holds a (first, max_ℤ last e) ≡ (span_holds a (first, last) || span_holds a (s, e))
join-holds first last s e a h k l m j = let next = +ℤ_parts last (pos 1) in ground arith

-- Every item starts, in the window, at or behind the address.
abbrev Behind : ℤ → ℤ → List MemAttributionItem → Type 0
Behind window_lo first = All (λ item. first ≤ℤ max_ℤ item.start window_lo)

abbrev spans_hold : ℤ → List (ℤ × ℤ) → Bool
spans_hold a = any (span_holds a)

clip_later :
    (window_lo : ℤ) (item later : MemAttributionItem)
    → StartsInOrder item later
    → max_ℤ item.start window_lo ≤ℤ max_ℤ later.start window_lo
clip_later window_lo item later h = ground arith

le_max : (x y z : ℤ) → x ≤ℤ y → x ≤ℤ max_ℤ y z
le_max x y z h = ground arith

le_of_not_lt : (s e : ℤ) → ltb_ℤ e s ≡ false → s ≤ℤ e
le_of_not_lt s e h = ground arith

min_le : (x y : ℤ) → y ≤ℤ int64_max → min_ℤ x y ≤ℤ int64_max
min_le x y h = ground arith

skip_step :
    (f i w any_rest : Bool)
    → (i && w) ≡ false
    → (f || (any_rest && w)) ≡ (f || ((i || any_rest) && w))
skip_step f i w any_rest h = ground arith

join_step : (f i w rest : Bool) → ((f || (i && w)) || (rest && w)) ≡ (f || ((i || rest) && w))
join_step f i w rest = ground arith

open_step : (f i w rest : Bool) → (f || ((i && w) || (rest && w))) ≡ (f || ((i || rest) && w))
open_step f i w rest = ground arith

-- The merged spans hold the addresses of the first and those of the items in the window.
span_loop-holds :
    (window_lo window_hi first last : ℤ) (items : List MemAttributionItem) (a : ℤ)
    → window_hi ≤ℤ int64_max
    → first ≤ℤ last
    → Behind window_lo first items
    → Pairwise StartsInOrder items
    → spans_hold a (span_loop window_lo window_hi first last items) ≡ (
        span_holds a (first, last) || (any (item_holds a) items && in_window window_lo window_hi a))
unfolding span_loop
span_loop-holds window_lo window_hi first last [] a h k b o = refl
span_loop-holds window_lo window_hi first last (item ∷ items) a h k b o =
    let s = max_ℤ item.start window_lo in
    let e = min_ℤ item.end_incl window_hi in
    let clip = clip-holds window_lo window_hi item a in
    let w = in_window window_lo window_hi a in
    let rest = any (item_holds a) items in
    elim (Bool-cases (ltb_ℤ e s)) [
      | inl short ↦ rw short (
          span_loop-holds window_lo window_hi first last items a h k b.1 o.1
          ∙ skip_step (span_holds a (first, last)) (item_holds a item) w rest
              (sym clip ∙ empty_span s e a short))
      | inr long ↦ elim (Bool-cases (joins last s)) [
        | inl j ↦
            rw (long, j)
              (span_loop-holds window_lo window_hi first (max_ℤ last e) items a h
                  (le_max first last e k) b.1 o.1
                ∙ ap (λ t. t || (rest && w))
                    (join-holds first last s e a k b.0 (le_of_not_lt s e long)
                        (min_le item.end_incl window_hi h) j
                      ∙ ap (λ t. span_holds a (first, last) || t) clip)
                ∙ join_step (span_holds a (first, last)) (item_holds a item) w rest)
        | inr j ↦
            rw (long, j)
              (ap (λ t. span_holds a (first, last) || t)
                  (span_loop-holds window_lo window_hi s e items a h (le_of_not_lt s e long)
                      (All-imp (StartsInOrder item) (λ i. s ≤ℤ max_ℤ i.start window_lo)
                        (clip_later window_lo item) items o.0)
                      o.1
                    ∙ ap (λ t. t || (rest && w)) clip)
                ∙ open_step (span_holds a (first, last)) (item_holds a item) w rest)
      ]
    ]

first_skip :
    (window_lo window_hi : ℤ) (item : MemAttributionItem) (items : List MemAttributionItem)
    → ltb_ℤ (min_ℤ item.end_incl window_hi) (max_ℤ item.start window_lo) ≡ true
    → item_spans window_lo window_hi (item ∷ items) ≡ item_spans window_lo window_hi items
unfolding item_spans
first_skip window_lo window_hi item items h = rw h refl

first_span :
    (window_lo window_hi : ℤ) (item : MemAttributionItem) (items : List MemAttributionItem)
    → ltb_ℤ (min_ℤ item.end_incl window_hi) (max_ℤ item.start window_lo) ≡ false
    → item_spans window_lo window_hi (item ∷ items)
      ≡ span_loop window_lo window_hi
          (max_ℤ item.start window_lo)
          (min_ℤ item.end_incl window_hi)
          items
unfolding item_spans
first_span window_lo window_hi item items h = rw h refl

-- For items in the order of their starts and a window that ends within `int64_t`, the spans hold
-- exactly the addresses of the window that lie in some item.
pub item_spans-holds :
    (window_lo window_hi : ℤ) (items : List MemAttributionItem) (a : ℤ)
    → window_hi ≤ℤ int64_max
    → Pairwise StartsInOrder items
    → any (span_holds a) (item_spans window_lo window_hi items)
      ≡ (any (item_holds a) items && in_window window_lo window_hi a)
item_spans-holds window_lo window_hi [] a h o = unfold item_spans in refl
item_spans-holds window_lo window_hi (item ∷ items) a h o =
    let s = max_ℤ item.start window_lo in
    let e = min_ℤ item.end_incl window_hi in
    let clip = clip-holds window_lo window_hi item a in
    let w = in_window window_lo window_hi a in
    let rest = any (item_holds a) items in
    elim (Bool-cases (ltb_ℤ e s)) [
      | inl short ↦
          ap (any (span_holds a)) (first_skip window_lo window_hi item items short)
          ∙ item_spans-holds window_lo window_hi items a h o.1
          ∙ skip_step false (item_holds a item) w rest (sym clip ∙ empty_span s e a short)
      | inr long ↦
          ap (any (span_holds a)) (first_span window_lo window_hi item items long)
          ∙ span_loop-holds window_lo window_hi s e items a h (le_of_not_lt s e long)
              (All-imp (StartsInOrder item) (λ i. s ≤ℤ max_ℤ i.start window_lo)
                (clip_later window_lo item) items o.0)
              o.1
          ∙ ap (λ t. t || (rest && w)) clip
          ∙ join_step false (item_holds a item) w rest
    ]

-- Each span starts behind the one before it, and none is empty.
abbrev pub IsSpanLadder : ℤ → List (ℤ × ℤ) → Type 0
IsSpanLadder back [] = Unit
IsSpanLadder back ((s, e) ∷ spans) = (back <ℤ s) × (s ≤ℤ e) × IsSpanLadder e spans

span_loop-IsSpanLadder :
    (window_lo window_hi back first last : ℤ) (items : List MemAttributionItem)
    → back <ℤ first
    → first ≤ℤ last
    → IsSpanLadder back (span_loop window_lo window_hi first last items)
unfolding span_loop
span_loop-IsSpanLadder window_lo window_hi back first last [] b k = (b, k, tt)
span_loop-IsSpanLadder window_lo window_hi back first last (item ∷ items) b k =
    let s = max_ℤ item.start window_lo in
    let e = min_ℤ item.end_incl window_hi in
    elim (Bool-cases (ltb_ℤ e s)) [
      | inl short ↦ rw short (span_loop-IsSpanLadder window_lo window_hi back first last items b k)
      | inr long ↦ elim (Bool-cases (joins last s)) [
        | inl j ↦
            rw (long, j)
              (span_loop-IsSpanLadder window_lo window_hi back first (max_ℤ last e) items b
                (le_max first last e k))
        | inr j ↦
            rw (long, j)
              (
                b,
                k,
                span_loop-IsSpanLadder window_lo window_hi last s e items (apart_lt last s j)
                    (le_of_not_lt s e long),
              )
      ]
    ]
  where
    apart_lt : (x y : ℤ) → joins x y ≡ false → x <ℤ y
    apart_lt x y h = let next = +ℤ_parts x (pos 1) in ground arith

-- The spans stand in order, behind any address that is below the window.
pub item_spans-IsSpanLadder :
    (window_lo window_hi back : ℤ) (items : List MemAttributionItem)
    → back <ℤ window_lo
    → IsSpanLadder back (item_spans window_lo window_hi items)
item_spans-IsSpanLadder window_lo window_hi back [] b = unfold item_spans in tt
item_spans-IsSpanLadder window_lo window_hi back (item ∷ items) b =
    let s = max_ℤ item.start window_lo in
    let e = min_ℤ item.end_incl window_hi in
    elim (Bool-cases (ltb_ℤ e s)) [
      | inl short ↦
          rw (first_skip window_lo window_hi item items short)
            (item_spans-IsSpanLadder window_lo window_hi back items b)
      | inr long ↦ rw (first_span window_lo window_hi item items long) (
          span_loop-IsSpanLadder window_lo window_hi back s e items
            (lt_max back item.start window_lo b) (le_of_not_lt s e long))
    ]
  where
    lt_max : (x y z : ℤ) → x <ℤ z → x <ℤ max_ℤ y z
    lt_max x y z h = ground arith
