-- ===== src/Ranges/Sorted.antt =====
-- Sorting ranges that do not overlap changes no linear search among them.
use ghidrasql.Prelude.{
  ℤ, ◌≤ℤ◌, ◌<ℤ◌, true, false, List, [], ◌∷◌, ◌≡◌, ◌⊎◌, inl, inr, refl, arith, if◌then◌else◌, All,
  insert_by, sort_by, sort_by-All, sort_by-Pairwise, sort_by_keeps, Pairwise, ap, ◌∙◌,
}
use ghidrasql.Ranges.{Range, covers, starts_before, sort}

module _ {A : Type 0} where
  abbrev pub Apart : Range A → Range A → Type 0
  Apart r s = (r.end ≤ℤ s.start) ⊎ (s.end ≤ℤ r.start)

  Apart-sym : (r s : Range A) → Apart r s → Apart s r
  Apart-sym r s (inl h) = inr h
  Apart-sym r s (inr h) = inl h

  -- No two ranges of the list overlap.
  abbrev pub AllApart : List (Range A) → Type 0
  AllApart = Pairwise Apart

  abbrev pub NonEmpty : Range A → Type 0
  NonEmpty r = r.start <ℤ r.end

  abbrev pub NotAfter : Range A → Range A → Type 0
  NotAfter r s = r.start ≤ℤ s.start

  -- The first range of the list that holds the address.
  abbrev pub first_value : List (Range A) → ℤ → A → A
  first_value [] address absent = absent
  first_value (r ∷ rs) address absent =
      if covers r address then r.value else first_value rs address absent

  before→NotAfter : (r s : Range A) → starts_before r s ≡ true → NotAfter r s
  unfolding starts_before
  before→NotAfter r s h = ground arith

  not_before→NotAfter : (r s : Range A) → starts_before s r ≡ false → NotAfter r s
  unfolding starts_before
  not_before→NotAfter r s h = ground arith

  pub sort-IsSorted : (rs : List (Range A)) → Pairwise NotAfter (sort rs)
  unfolding sort
  sort-IsSorted =
      sort_by-Pairwise starts_before NotAfter before→NotAfter not_before→NotAfter
        (λ r s t h k. omega arith)

  pub sort-AllApart : (rs : List (Range A)) → AllApart rs → AllApart (sort rs)
  unfolding sort
  sort-AllApart = sort_by_keeps starts_before Apart Apart-sym

  pub sort-All : (P : Range A → Type 0) (rs : List (Range A)) → All P rs → All P (sort rs)
  unfolding sort
  sort-All = sort_by-All starts_before

  first_value-insert_by :
      (r : Range A) (rs : List (Range A)) (address : ℤ) (absent : A)
      → All (Apart r) rs
      → first_value (insert_by starts_before r rs) address absent
        ≡ first_value (r ∷ rs) address absent
  unfolding insert_by
  first_value-insert_by r [] address absent h = refl
  first_value-insert_by r (s ∷ rs) address absent h =
      ground (arith, h.0, first_value-insert_by r rs address absent h.1)

  pub first_value-sort :
      (rs : List (Range A)) (address : ℤ) (absent : A)
      → AllApart rs
      → first_value (sort rs) address absent ≡ first_value rs address absent
  unfolding sort
  first_value-sort [] address absent h = unfold sort_by in refl
  first_value-sort (r ∷ rs) address absent h =
      unfold sort_by in
      first_value-insert_by r (sort_by starts_before rs) address absent
        (sort_by-All starts_before (Apart r) rs h.0)
      ∙ ap (λ v. if covers r address then r.value else v) (first_value-sort rs address absent h.1)
