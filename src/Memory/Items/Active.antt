-- ===== src/Memory/Items/Active.antt =====
-- `items_intersecting` stops early by its running maxima, and yet misses no item.
use mathlib.Core.List.{reverse_aux, reverse-reverse, reverse-cons}
use ghidrasql.Prelude.{
  select, ℕ, zero, suc, ℤ, ◌≤ℤ◌, ltb_ℤ, leb_ℤ, max_ℤ, Bool, true, false, ◌&&◌, List, [], ◌∷◌, ◌++◌,
  map, reverse, ◌≡◌, refl, sym, ap, append-nil, ◌∙◌, inl, inr, arith, if◌then◌else◌, All, All-imp,
  take, Pairwise, sort_by-Pairwise, Bool-cases,
}
use ghidrasql.Model.{InstructionRow, StringRow, DataItemRow}
use ghidrasql.Memory.Words.{int64_min}
use ghidrasql.Memory.Items.{
  MemAttributionItem, listed_items, item_before, build_items, starts_until, back_walk, with_reach,
  items_intersecting,
}

select-append :
    {A : Type 0} (p : A → Bool) (xs ys : List A) → select p (xs ++ ys) ≡ select p xs ++ select p ys
select-append p [] ys = refl
select-append p (x ∷ xs) ys = elim (Bool-cases (p x)) [
  | inl e ↦ rw e (ap (λ t. x ∷ t) (select-append p xs ys))
  | inr e ↦ rw e (select-append p xs ys)
]

select-reverse :
    {A : Type 0} (p : A → Bool) (xs : List A) → select p (reverse xs) ≡ reverse (select p xs)
select-reverse p [] = refl
select-reverse p (x ∷ xs) =
    ap (select p) (reverse-cons x xs)
    ∙ select-append p (reverse xs) (x ∷ [])
    ∙ ap (λ t. t ++ select p (x ∷ [])) (select-reverse p xs)
    ∙ last
  where
    last : reverse (select p xs) ++ select p (x ∷ []) ≡ reverse (select p (x ∷ xs))
    last = elim (Bool-cases (p x)) [
      | inl e ↦ rw e (sym (reverse-cons x (select p xs)))
      | inr e ↦ rw e (append-nil (reverse (select p xs)))
    ]

select_none :
    {A : Type 0} (p : A → Bool) (xs : List A) → All (λ x. p x ≡ false) xs → select p xs ≡ []
select_none p [] h = refl
select_none p (x ∷ xs) h = rw (h.0) (select_none p xs h.1)

select-select :
    {A : Type 0} (p q : A → Bool) (xs : List A)
    → select q (select p xs) ≡ select (λ x. p x && q x) xs
select-select p q [] = refl
select-select p q (x ∷ xs) = elim (Bool-cases (p x)) [
  | inl e ↦ rw e (kept (q x) (select-select p q xs))
  | inr e ↦ rw e (select-select p q xs)
]
  where
    kept :
        (b : Bool)
        → select q (select p xs) ≡ select (λ y. p y && q y) xs
        → (if b then x ∷ select q (select p xs) else select q (select p xs))
          ≡ (if b then x ∷ select (λ y. p y && q y) xs else select (λ y. p y && q y) xs)
    kept true ih = ap (λ t. x ∷ t) ih
    kept false ih = ih

abbrev Reached : Type 0
Reached = MemAttributionItem × ℤ

abbrev first : Reached → MemAttributionItem
first p = p.0

-- Each running maximum bounds the ends of its item and of those behind it.
abbrev Reaching : List Reached → Type 0
Reaching [] = Unit
Reaching (p ∷ l) = ((p.0).end_incl ≤ℤ p.1) × All (λ q. (first q).end_incl ≤ℤ p.1) l × Reaching l

passed_over :
    (lo reach : ℤ) (item : MemAttributionItem)
    → item.end_incl ≤ℤ reach
    → ltb_ℤ reach lo ≡ true
    → leb_ℤ lo item.end_incl ≡ false
passed_over lo reach item h e = ground arith

every_passed :
    (lo reach : ℤ) (l : List Reached)
    → All (λ q. (first q).end_incl ≤ℤ reach) l
    → ltb_ℤ reach lo ≡ true
    → All (λ i. leb_ℤ lo i.end_incl ≡ false) (map first l)
every_passed lo reach [] h e = tt
every_passed lo reach (q ∷ l) h e = (passed_over lo reach q.0 h.0 e, every_passed lo reach l h.1 e)

back_walk-select :
    (lo : ℤ) (l : List Reached)
    → Reaching l
    → back_walk lo l ≡ select (λ item. leb_ℤ lo item.end_incl) (map first l)
unfolding back_walk
back_walk-select lo [] h = refl
back_walk-select lo ((item, reach) ∷ rest) h = elim (Bool-cases (ltb_ℤ reach lo)) [
  | inl e ↦
      let passed : leb_ℤ lo item.end_incl ≡ false = ground (arith, h.0) in
      rw (e, passed)
        (sym (
          select_none (λ i. leb_ℤ lo i.end_incl) (map first rest)
            (every_passed lo reach rest h.1 e)))
  | inr e ↦ rw (e, back_walk-select lo rest h.2) refl
]

le_max :
    (q : MemAttributionItem) (running : ℤ) (item : MemAttributionItem)
    → q.end_incl ≤ℤ running
    → q.end_incl ≤ℤ max_ℤ running item.end_incl
le_max q running item h = ground arith

reverse_aux-Reaching :
    (items : List MemAttributionItem) (running : ℤ) (l : List Reached)
    → Reaching l
    → All (λ q. (first q).end_incl ≤ℤ running) l
    → Reaching (reverse_aux (with_reach running items) l)
unfolding with_reach
reverse_aux-Reaching [] running l h k = h
reverse_aux-Reaching (item ∷ items) running l h k =
    let top = max_ℤ running item.end_incl in
    let below =
      All-imp (λ q. (first q).end_incl ≤ℤ running) (λ q. (first q).end_incl ≤ℤ top)
        (λ q le. le_max q.0 running item le) l k in
    reverse_aux-Reaching items top ((item, top) ∷ l) (ground arith, below, h) (ground arith, below)

map-reverse_aux :
    (xs l : List Reached) → map first (reverse_aux xs l) ≡ reverse_aux (map first xs) (map first l)
map-reverse_aux [] l = refl
map-reverse_aux (x ∷ xs) l = map-reverse_aux xs (x ∷ l)

map-with_reach :
    (items : List MemAttributionItem) (running : ℤ) → map first (with_reach running items) ≡ items
unfolding with_reach
map-with_reach [] running = refl
map-with_reach (item ∷ items) running =
    ap (λ t. item ∷ t) (map-with_reach items (max_ℤ running item.end_incl))

take-with_reach :
    (n : ℕ) (running : ℤ) (items : List MemAttributionItem)
    → take n (with_reach running items) ≡ with_reach running (take n items)
unfolding with_reach
take-with_reach zero running items = refl
take-with_reach (suc n) running [] = refl
take-with_reach (suc n) running (item ∷ items) =
    ap (λ t. (item, max_ℤ running item.end_incl) ∷ t)
      (take-with_reach n (max_ℤ running item.end_incl) items)

abbrev pub StartsInOrder : MemAttributionItem → MemAttributionItem → Type 0
StartsInOrder a b = a.start ≤ℤ b.start

not_due :
    (hi : ℤ) (item later : MemAttributionItem)
    → StartsInOrder item later
    → ltb_ℤ hi item.start ≡ true
    → leb_ℤ later.start hi ≡ false
not_due hi item later h e = ground arith

every_later :
    (hi : ℤ) (item : MemAttributionItem) (items : List MemAttributionItem)
    → All (StartsInOrder item) items
    → ltb_ℤ hi item.start ≡ true
    → All (λ i. leb_ℤ i.start hi ≡ false) items
every_later hi item [] h e = tt
every_later hi item (later ∷ items) h e =
    (not_due hi item later h.0 e, every_later hi item items h.1 e)

take-starts_until :
    (hi : ℤ) (items : List MemAttributionItem)
    → Pairwise StartsInOrder items
    → take (starts_until hi items) items ≡ select (λ item. leb_ℤ item.start hi) items
unfolding starts_until
take-starts_until hi [] h = refl
take-starts_until hi (item ∷ items) h = elim (Bool-cases (ltb_ℤ hi item.start)) [
  | inl e ↦
      let early : leb_ℤ item.start hi ≡ false = ground arith in
      rw (e, early)
        (sym (select_none (λ i. leb_ℤ i.start hi) items (every_later hi item items h.0 e)))
  | inr e ↦
      let due : leb_ℤ item.start hi ≡ true = ground arith in
      rw (e, due) (ap (λ t. item ∷ t) (take-starts_until hi items h.1))
]

pub build_items-StartsInOrder :
    (instructions : List InstructionRow) (strings : List StringRow) (data_items : List DataItemRow)
    → Pairwise StartsInOrder (build_items instructions strings data_items)
unfolding build_items
build_items-StartsInOrder instructions strings data_items =
    sort_by-Pairwise item_before StartsInOrder (λ a b h. unfold item_before in ground arith)
      (λ a b h. unfold item_before in ground arith) (λ a b c h k. omega arith)
      (listed_items instructions strings data_items)

walk-select :
    (items : List MemAttributionItem) (lo running : ℤ)
    → reverse (back_walk lo (reverse (with_reach running items)))
      ≡ select (λ item. leb_ℤ lo item.end_incl) items
walk-select items lo running =
    ap reverse (
      back_walk-select lo _ (reverse_aux-Reaching items running [] tt tt)
      ∙ ap (select (λ item. leb_ℤ lo item.end_incl)) (
          map-reverse_aux (with_reach running items) [] ∙ ap reverse (map-with_reach items running))
      ∙ select-reverse (λ item. leb_ℤ lo item.end_incl) items)
    ∙ reverse-reverse _

-- Among the built items, the backward search with its early stop returns exactly those that start at
-- or before the end of the page and end at or behind its start, in their order.
pub items_intersecting_lem :
    (instructions : List InstructionRow) (strings : List StringRow) (data_items : List DataItemRow)
    (lo hi_incl : ℤ)
    → items_intersecting (build_items instructions strings data_items) lo hi_incl
      ≡ select
          (λ item. leb_ℤ item.start hi_incl && leb_ℤ lo item.end_incl)
          (build_items instructions strings data_items)
unfolding items_intersecting
items_intersecting_lem instructions strings data_items lo hi_incl =
    let items = build_items instructions strings data_items in
    ap (λ t. reverse (back_walk lo (reverse t)))
      (take-with_reach (starts_until hi_incl items) int64_min items)
    ∙ walk-select (take (starts_until hi_incl items) items) lo int64_min
    ∙ ap (select (λ item. leb_ℤ lo item.end_incl)) (
        take-starts_until hi_incl items (build_items-StartsInOrder instructions strings data_items))
    ∙ select-select (λ item. leb_ℤ item.start hi_incl) (λ item. leb_ℤ lo item.end_incl) items
