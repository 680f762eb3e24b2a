-- ===== src/Search/Cut.antt =====
-- `substr` and `lower_ascii`, and what stands in the texts that they return.
use ghidrasql.Prelude.{
  ℕ, zero, suc, ◌+◌, ◌-◌, ◌≤◌, [], ◌∷◌, ◌++◌, map, ◌≡◌, refl, sym, ap, ◌∙◌, append_assoc, arith,
  Bytes, length, length-drop, take, drop, Occurs, substr,
}
use mathlib.Core.List.{map-append}
use ghidrasql.Text.{lower_ascii}

-- The part of a text that `substr` cuts out, when what it is to keep lies inside.
pub take-append :
    (n : ℕ) (xs ys : Bytes) → length xs ≤ n → take n (xs ++ ys) ≡ xs ++ take (n - length xs) ys
take-append n [] ys h = let e : n - 0 ≡ n = omega arith in rw e refl
take-append zero (x ∷ xs) ys h = absurd (omega arith)
take-append (suc n) (x ∷ xs) ys h =
    let e : suc n - suc (length xs) ≡ n - length xs = omega arith in
    rw e (ap (λ t. x ∷ t) (take-append n xs ys (omega arith)))

pub drop-append : (n : ℕ) (xs ys : Bytes) → n ≤ length xs → drop n (xs ++ ys) ≡ drop n xs ++ ys
drop-append zero xs ys h = refl
drop-append (suc n) [] ys h = absurd (omega arith)
drop-append (suc n) (x ∷ xs) ys h = drop-append n xs ys (omega arith)

pub substr-Occurs :
    (start size : ℕ) (term s : Bytes) (o : Occurs term s)
    → start ≤ length (o.before)
    → length (o.before) + length term ≤ start + size
    → Occurs term (substr start size s)
substr-Occurs start size term s o h k =
    let rest = size - length (drop start (o.before)) in
    record {
      before = drop start (o.before);
      after = take (rest - length term) (o.after);
      split =
          ap (substr start size) (o.split)
          ∙ ap (take size) (drop-append start (o.before) (term ++ o.after) h)
          ∙ take-append size (drop start (o.before)) (term ++ o.after)
              (omega (arith, length-drop start (o.before)))
          ∙ ap (λ t. drop start (o.before) ++ t)
              (take-append rest term (o.after) (omega (arith, length-drop start (o.before))));
    }

map-take : (f : ℕ → ℕ) (n : ℕ) (s : Bytes) → map f (take n s) ≡ take n (map f s)
map-take f zero s = refl
map-take f (suc n) [] = refl
map-take f (suc n) (c ∷ s) = ap (λ t. f c ∷ t) (map-take f n s)

map-drop : (f : ℕ → ℕ) (n : ℕ) (s : Bytes) → map f (drop n s) ≡ drop n (map f s)
map-drop f zero s = refl
map-drop f (suc n) [] = refl
map-drop f (suc n) (c ∷ s) = map-drop f n s

length-map : (f : ℕ → ℕ) (s : Bytes) → length (map f s) ≡ length s
length-map f [] = refl
length-map f (c ∷ s) = ap suc (length-map f s)

pub lower_ascii-append : (s t : Bytes) → lower_ascii (s ++ t) ≡ lower_ascii s ++ lower_ascii t
unfolding lower_ascii
lower_ascii-append s t = map-append _ s t

pub lower_ascii-substr :
    (start size : ℕ) (s : Bytes)
    → lower_ascii (substr start size s) ≡ substr start size (lower_ascii s)
unfolding lower_ascii
lower_ascii-substr start size s =
    map-take _ size (drop start s) ∙ ap (take size) (map-drop _ start s)

pub length-lower_ascii : (s : Bytes) → length (lower_ascii s) ≡ length s
unfolding lower_ascii
length-lower_ascii s = length-map _ s

pub Occurs-append_left : (p l s : Bytes) → Occurs p s → Occurs p (l ++ s)
Occurs-append_left p l s o = record {
  before = l ++ o.before;
  after = o.after;
  split = ap (λ t. l ++ t) (o.split) ∙ sym (append_assoc l (o.before) (p ++ o.after));
}

pub Occurs-append_right : (p s r : Bytes) → Occurs p s → Occurs p (s ++ r)
Occurs-append_right p s r o = record {
  before = o.before;
  after = o.after ++ r;
  split =
      ap (λ t. t ++ r) (o.split)
      ∙ append_assoc (o.before) (p ++ o.after) r
      ∙ ap (λ t. o.before ++ t) (append_assoc p (o.after) r);
}
