-- ===== src/Prelude/Sort.antt =====
-- `std::sort`, as an insertion sort over a strict order. (The library does not promise the order of
-- elements that are equal in it; here they keep theirs.)
use Prim.Native.Nat.{ℕ, suc}
use mathlib.Core.Path.{◌≡◌, refl, ap, ◌∙◌}
use mathlib.Core.Logic.{inl, inr}
use mathlib.Core.Bool.{Bool, true, false, ◌||◌}
use mathlib.Core.List.{List, [], ◌∷◌, ◌++◌}
use native.Mathlib.Omega.{arith}
use ghidrasql.Prelude.Tests.{if◌then◌else◌, Bool-cases}
use ghidrasql.Prelude.Lists.{All, All-imp}

-- Whether some element passes a test.
abbrev pub any : {A : Type 0} → (A → Bool) → List A → Bool
any p [] = false
any p (x ∷ xs) = p x || any p xs

pub any-append :
    {A : Type 0} (p : A → Bool) (xs ys : List A) → any p (xs ++ ys) ≡ (any p xs || any p ys)
any-append p [] ys = refl
any-append p (x ∷ xs) ys = ground (arith, any-append p xs ys)

-- How many elements pass a test.
abbrev pub count : {A : Type 0} → (A → Bool) → List A → ℕ
count p [] = 0
count p (x ∷ xs) = if p x then suc (count p xs) else count p xs

-- The elements that pass a test, in their order.
abbrev pub select : {A : Type 0} → (A → Bool) → List A → List A
select p [] = []
select p (x ∷ xs) = if p x then x ∷ select p xs else select p xs

-- Every element stands in the relation to each element behind it.
abbrev pub Pairwise : {A : Type 0} → (A → A → Type 0) → List A → Type 0
Pairwise R [] = Unit
Pairwise R (x ∷ xs) = All (R x) xs × Pairwise R xs

module _ {A : Type 0} (before : A → A → Bool) where
  unfoldable pub insert_by : A → List A → List A
  insert_by x [] = x ∷ []
  insert_by x (y ∷ ys) = if before y x then y ∷ insert_by x ys else x ∷ (y ∷ ys)

  unfoldable pub sort_by : List A → List A
  unfolding insert_by
  sort_by [] = []
  sort_by (x ∷ xs) = insert_by x (sort_by xs)

  module _ {κ} (P : A → Type κ) where
    pub insert_by-All : (x : A) (xs : List A) → P x → All P xs → All P (insert_by x xs)
    unfolding insert_by
    insert_by-All x [] p h = (p, tt)
    insert_by-All x (y ∷ ys) p h = elim (Bool-cases (before y x)) [
      | inl e ↦ rw e (h.0, insert_by-All x ys p h.1)
      | inr e ↦ rw e (p, h)
    ]

    pub sort_by-All : (xs : List A) → All P xs → All P (sort_by xs)
    unfolding sort_by
    sort_by-All [] h = tt
    sort_by-All (x ∷ xs) h = insert_by-All x (sort_by xs) h.0 (sort_by-All xs h.1)

  any-insert_by : (p : A → Bool) (x : A) (xs : List A) → any p (insert_by x xs) ≡ (p x || any p xs)
  unfolding insert_by
  any-insert_by p x [] = refl
  any-insert_by p x (y ∷ ys) = elim (Bool-cases (before y x)) [
    | inl e ↦ rw e (ground (arith, any-insert_by p x ys))
    | inr e ↦ rw e refl
  ]

  pub any-sort_by : (p : A → Bool) (xs : List A) → any p (sort_by xs) ≡ any p xs
  unfolding sort_by
  any-sort_by p [] = refl
  any-sort_by p (x ∷ xs) = any-insert_by p x (sort_by xs) ∙ ap (λ b. p x || b) (any-sort_by p xs)

  module _ (R : A → A → Type 0) (before→R : (x y : A) → before x y ≡ true → R x y)
      (not_before→R : (x y : A) → before y x ≡ false → R x y)
      (R_trans : (x y z : A) → R x y → R y z → R x z) where
    insert_by-Pairwise : (x : A) (xs : List A) → Pairwise R xs → Pairwise R (insert_by x xs)
    unfolding insert_by
    insert_by-Pairwise x [] h = (tt, tt)
    insert_by-Pairwise x (y ∷ ys) h = elim (Bool-cases (before y x)) [
      | inl e ↦ rw e (insert_by-All (R y) x ys (before→R y x e) h.0, insert_by-Pairwise x ys h.1)
      | inr e ↦ rw e (
        (
          not_before→R x y e,
          All-imp (R y) (R x) (λ z q. R_trans x y z (not_before→R x y e) q) ys h.0,
        ),
        h,
      )
    ]

    -- The result is in order.
    pub sort_by-Pairwise : (xs : List A) → Pairwise R (sort_by xs)
    unfolding sort_by
    sort_by-Pairwise [] = tt
    sort_by-Pairwise (x ∷ xs) = insert_by-Pairwise x (sort_by xs) (sort_by-Pairwise xs)

  -- A symmetric relation between all elements is kept by sorting.
  module _ (R : A → A → Type 0) (R_sym : (x y : A) → R x y → R y x) where
    insert_by_keeps :
        (x : A) (xs : List A) → All (R x) xs → Pairwise R xs → Pairwise R (insert_by x xs)
    unfolding insert_by
    insert_by_keeps x [] h k = (tt, tt)
    insert_by_keeps x (y ∷ ys) h k = elim (Bool-cases (before y x)) [
      | inl e ↦ rw e (insert_by-All (R y) x ys (R_sym x y h.0) k.0, insert_by_keeps x ys h.1 k.1)
      | inr e ↦ rw e (h, k)
    ]

    pub sort_by_keeps : (xs : List A) → Pairwise R xs → Pairwise R (sort_by xs)
    unfolding sort_by
    sort_by_keeps [] h = tt
    sort_by_keeps (x ∷ xs) h =
        insert_by_keeps x (sort_by xs) (sort_by-All (R x) xs h.0) (sort_by_keeps xs h.1)
