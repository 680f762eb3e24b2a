-- ===== src/Search/Match.antt =====
-- `find` against occurrence, and `all_query_terms_match` against its meaning.
use ghidrasql.Prelude.{
  ℕ, suc, true, false, ◌||◌, Option, none, some, List, [], ◌∷◌, ◌++◌, ◌≡◌, ◌↔◌, inl, inr, refl, sym,
  ap, ◌∙◌, arith, if◌then◌else◌, Bytes, starts_with, find, contains, length, is_empty, drop, All,
  Occurs, Bool-cases,
}
use mathlib.Core.Option
use ghidrasql.Text.{tokenize}
use ghidrasql.Search.{terms_match, all_query_terms_match}

pub starts_with-append : (p s : Bytes) → starts_with p (p ++ s) ≡ true
unfolding starts_with
starts_with-append [] s = refl
starts_with-append (c ∷ p) s = ground (arith, starts_with-append p s)

pub starts_with-drop : (p s : Bytes) → starts_with p s ≡ true → s ≡ p ++ drop (length p) s
unfolding starts_with
starts_with-drop [] s h = refl
starts_with-drop (c ∷ p) [] h = cc
starts_with-drop (c ∷ p) (d ∷ s) h = ground (arith, starts_with-drop p s)

pub find-hit :
    (p : Bytes) (c : ℕ) (s : Bytes) → starts_with p (c ∷ s) ≡ true → find p (c ∷ s) ≡ some 0
unfolding find
find-hit p c s h = rw h

pub find-miss :
    (p : Bytes) (c : ℕ) (s : Bytes)
    → starts_with p (c ∷ s) ≡ false
    → find p (c ∷ s) ≡ Option.map suc (find p s)
unfolding find
find-miss p c s h = rw h

-- The place that `find` returns.
pub find-split :
    (p s : Bytes) (i : ℕ) → find p s ≡ some i → (o : Occurs p s) × (length (o.before) ≡ i)
find-split p [] i h = elim (Bool-cases (starts_with p [])) [
  | inl e ↦ (
    record { before = []; after = drop (length p) []; split = starts_with-drop p [] e },
    unfold find in ground arith,
  )
  | inr e ↦ absurd (unfold find in ground arith)
]
find-split p (c ∷ s) i h = elim (Bool-cases (starts_with p (c ∷ s))) [
  | inl e ↦ (
    record { before = []; after = drop (length p) (c ∷ s); split = starts_with-drop p (c ∷ s) e },
    ground (arith, find-hit p c s e),
  )
  | inr e ↦ later (find p s) (find-split p s) (sym (find-miss p c s e) ∙ h)
]
  where
    later :
        (hit : Option ℕ)
        → ((j : ℕ) → hit ≡ some j → (o : Occurs p s) × (length (o.before) ≡ j))
        → Option.map suc hit ≡ some i
        → (o : Occurs p (c ∷ s)) × (length (o.before) ≡ i)
    later none q r = cc
    later (some j) q r =
        let (o, n) = q j refl in
        (
          record { before = c ∷ o.before; after = o.after; split = ap (λ t. c ∷ t) o.split },
          ground arith,
        )

contains-nil : (p : Bytes) → contains [] p ≡ starts_with p []
unfolding contains
contains-nil p = ground arith

contains-cons :
    (p : Bytes) (c : ℕ) (s : Bytes) → contains (c ∷ s) p ≡ (starts_with p (c ∷ s) || contains s p)
unfolding contains
contains-cons p c s = ground arith

pub contains-Occurs : (p s : Bytes) → contains s p ≡ true → Occurs p s
contains-Occurs p [] h = record {
  before = [];
  after = drop (length p) [];
  split = starts_with-drop p [] (sym (contains-nil p) ∙ h);
}
contains-Occurs p (c ∷ s) h = elim (Bool-cases (starts_with p (c ∷ s))) [
  | inl e ↦ record {
    before = [];
    after = drop (length p) (c ∷ s);
    split = starts_with-drop p (c ∷ s) e;
  }
  | inr e ↦
      let o = contains-Occurs p s (ground (arith, contains-cons p c s)) in
      record { before = c ∷ o.before; after = o.after; split = ap (λ t. c ∷ t) o.split }
]

starts_with-contains : (p s : Bytes) → starts_with p s ≡ true → contains s p ≡ true
starts_with-contains p [] h = contains-nil p ∙ h
starts_with-contains p (c ∷ s) h = ground (arith, contains-cons p c s)

contains_split : (p before after : Bytes) → contains (before ++ (p ++ after)) p ≡ true
contains_split p [] after = starts_with-contains p _ (starts_with-append p after)
contains_split p (c ∷ before) after =
    ground (arith, contains-cons p c (before ++ (p ++ after)), contains_split p before after)

-- `s.find(p) != npos` exactly when `p` stands somewhere in `s`.
pub contains_iff : (p s : Bytes) → (contains s p ≡ true) ↔ Occurs p s
contains_iff p s = (contains-Occurs p s, λ o. rw o.split (contains_split p o.before o.after))

terms_match_sound :
    (haystack : Bytes) (terms : List Bytes)
    → terms_match haystack terms ≡ true
    → All (λ term. Occurs term haystack) terms
unfolding terms_match
terms_match_sound haystack [] h = tt
terms_match_sound haystack (t ∷ ts) h =
    (contains-Occurs t haystack (ground arith), terms_match_sound haystack ts (ground arith))

terms_match_complete :
    (haystack : Bytes) (terms : List Bytes)
    → All (λ term. Occurs term haystack) terms
    → terms_match haystack terms ≡ true
unfolding terms_match
terms_match_complete haystack [] h = refl
terms_match_complete haystack (t ∷ ts) h =
    rw ((contains_iff t haystack).1 h.0) (terms_match_complete haystack ts h.1)

-- A query matches exactly when it has at least one token and each of its tokens stands somewhere in
-- the text.
pub all_query_terms_match_iff :
    (haystack query : Bytes)
    → (all_query_terms_match haystack query ≡ true)
      ↔ ((is_empty (tokenize query) ≡ false) × All (λ term. Occurs term haystack) (tokenize query))
unfolding all_query_terms_match
all_query_terms_match_iff haystack query = (sound, complete)
  where
    sound :
        (if is_empty (tokenize query) then false else terms_match haystack (tokenize query)) ≡ true
        → (is_empty (tokenize query) ≡ false) × All (λ term. Occurs term haystack) (tokenize query)
    sound h = elim (Bool-cases (is_empty (tokenize query))) [
      | inl e ↦ absurd (ground arith)
      | inr e ↦ (e, terms_match_sound haystack (tokenize query) (ground arith))
    ]

    complete :
        (is_empty (tokenize query) ≡ false) × All (λ term. Occurs term haystack) (tokenize query)
        → (if is_empty (tokenize query) then false else terms_match haystack (tokenize query))
          ≡ true
    complete h = rw (h.0) (terms_match_complete haystack (tokenize query) h.1)
