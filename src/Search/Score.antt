-- ===== src/Search/Score.antt =====
-- `query_score`: its loops end, and it counts occurrences that do not overlap, from the left.
use ghidrasql.Prelude.{
  ℕ, zero, suc, ◌+◌, ◌-◌, ◌≤◌, ◌<◌, true, false, not, ◌&&◌, Option, none, some, List, [], ◌∷◌, ◌≡◌,
  inl, inr, refl, sym, ap, ◌∙◌, arith, ltb, if◌then◌else◌, Bytes, starts_with, find, contains,
  length, is_empty, drop, All, Bool-cases,
}
use mathlib.Core.Option
use ghidrasql.Text.{tokenize}
use ghidrasql.Text.Words.{IsWord, tokenize-IsWord}
use ghidrasql.Search.Match.{find-hit, find-miss}
use ghidrasql.Search.{find_at, count_loop, score_loop, query_score}

-- How often a text stands in another, counted from the left without overlaps: after a hit, the next
-- `skip` bytes are passed over.
abbrev pub occurrences : Bytes → ℕ → Bytes → ℕ
occurrences term skip [] = 0
occurrences term (suc skip) (c ∷ s) = occurrences term skip s
occurrences term zero (c ∷ s) =
    if starts_with term (c ∷ s)
    then suc (occurrences term (length term - 1) s)
    else occurrences term 0 s

pub total : Bytes → List Bytes → ℕ
total haystack [] = 0
total haystack (term ∷ terms) = occurrences term 0 haystack + total haystack terms

occurrences-skip :
    (term : Bytes) (k : ℕ) (s : Bytes) → occurrences term k s ≡ occurrences term 0 (drop k s)
occurrences-skip term zero s = refl
occurrences-skip term (suc k) [] = refl
occurrences-skip term (suc k) (c ∷ s) = occurrences-skip term k s

occurrences_from : Bytes → Bytes → Option ℕ → ℕ
occurrences_from term s none = 0
occurrences_from term s (some i) = suc (occurrences term 0 (drop (i + length term) s))

occurrences_from-suc :
    (term : Bytes) (c : ℕ) (s : Bytes) (hit : Option ℕ)
    → occurrences_from term (c ∷ s) (Option.map suc hit) ≡ occurrences_from term s hit
unfolding occurrences_from
occurrences_from-suc term c s none = refl
occurrences_from-suc term c s (some i) =
    let e : suc i + length term ≡ suc (i + length term) = omega arith in rw e refl

-- What one search of the loop finds is what the count finds next.
occurrences-find :
    (term s : Bytes)
    → is_empty term ≡ false
    → occurrences term 0 s ≡ occurrences_from term s (find term s)
occurrences-find [] s e = cc
occurrences-find (d ∷ term) [] e = unfold find starts_with occurrences_from in refl
occurrences-find (d ∷ term) (c ∷ s) e = elim (Bool-cases (starts_with (d ∷ term) (c ∷ s))) [
  | inl h ↦ rw (h, find-hit (d ∷ term) c s h) (first_hit d term c s)
  | inr h ↦
      rw (h, find-miss (d ∷ term) c s h, occurrences_from-suc (d ∷ term) c s (find (d ∷ term) s))
        (occurrences-find (d ∷ term) s refl)
]
  where
    first_hit :
        (d : ℕ) (term : Bytes) (c : ℕ) (s : Bytes)
        → suc (occurrences (d ∷ term) (suc (length term) - 1) s)
          ≡ occurrences_from (d ∷ term) (c ∷ s) (some 0)
    first_hit d term c s =
        unfold occurrences_from in
        let e : suc (length term) - 1 ≡ length term = omega arith in
        let e' : 0 + suc (length term) ≡ suc (length term) = omega arith in
        rw (e, e') (ap suc (occurrences-skip (d ∷ term) (length term) s))

drop-nil : (k : ℕ) → drop {A = ℕ} k [] ≡ []
drop-nil zero = refl
drop-nil (suc k) = refl

drop-drop : (i k : ℕ) (s : Bytes) → drop i (drop k s) ≡ drop (k + i) s
drop-drop i zero s = let e : 0 + i ≡ i = omega arith in rw e refl
drop-drop i (suc k) [] = drop-nil i ∙ sym (drop-nil (suc k + i))
drop-drop i (suc k) (c ∷ s) =
    let e : suc k + i ≡ suc (k + i) = omega arith in rw e (drop-drop i k s)

drop_all : (k : ℕ) (s : Bytes) → length s ≤ k → drop k s ≡ []
drop_all zero [] h = refl
drop_all zero (c ∷ s) h = absurd (omega arith)
drop_all (suc k) [] h = refl
drop_all (suc k) (c ∷ s) h = drop_all k s (omega arith)

find_at_lem :
    (term haystack : Bytes) (at : ℕ)
    → ltb at (length haystack) ≡ true
    → find_at term at haystack ≡ Option.map (λ i. at + i) (find term (drop at haystack))
unfolding find_at
find_at_lem term haystack at h =
    let e : ltb (length haystack) at ≡ false = ground arith in rw e refl

-- The loop's next round, by the result of its search.
count_next : ℕ → Bytes → Bytes → ℕ → ℕ → Option ℕ → Option ℕ
count_next fuel haystack term at count none = some count
count_next fuel haystack term at count (some i) =
    count_loop fuel haystack term (at + i + length term) (count + 1)

count_loop-suc :
    (fuel : ℕ) (haystack term : Bytes) (at count : ℕ)
    → ltb at (length haystack) ≡ true
    → count_loop (suc fuel) haystack term at count
      ≡ count_next fuel haystack term at count (find term (drop at haystack))
unfolding count_loop count_next
count_loop-suc fuel haystack term at count h =
    rw (h, count_loop, find_at_lem term haystack at h, count_loop)
      (by_hit (find term (drop at haystack)))
  where
    by_hit :
        (hit : Option ℕ)
        → (elim (Option.map (λ i. at + i) hit) [
          | none ↦ some count
          | some i ↦ count_loop fuel haystack term (i + length term) (count + 1)
        ])
          ≡ count_next fuel haystack term at count hit
    by_hit none = refl
    by_hit (some i) = refl

count_loop_end :
    (fuel : ℕ) (haystack term : Bytes) (at count : ℕ)
    → ltb at (length haystack) ≡ false
    → count_loop (suc fuel) haystack term at count ≡ some count
unfolding count_loop
count_loop_end fuel haystack term at count h = rw (h, count_loop)

-- With fuel for the bytes that are left the loop ends, and has added the occurrences among them.
count_loop-occurrences :
    (fuel : ℕ) (haystack term : Bytes) (at count : ℕ)
    → is_empty term ≡ false
    → length haystack - at < fuel
    → count_loop fuel haystack term at count ≡ some (count + occurrences term 0 (drop at haystack))
count_loop-occurrences zero haystack term at count e h = absurd (omega arith)
count_loop-occurrences (suc fuel) haystack [] at count e h = cc
count_loop-occurrences (suc fuel) haystack (d ∷ term) at count e h =
    elim (Bool-cases (ltb at (length haystack))) [
      | inr past ↦
          count_loop_end fuel haystack (d ∷ term) at count past
          ∙ (rw (drop_all at haystack (ground arith)) (ap some (omega arith)))
      | inl within ↦
          count_loop-suc fuel haystack (d ∷ term) at count within
          ∙ next (find (d ∷ term) (drop at haystack)) (λ i.
            count_loop-occurrences fuel haystack (d ∷ term) (at + i + length (d ∷ term)) (count + 1)
              refl (ground arith))
          ∙ ap (λ n. some (count + n)) (sym (occurrences-find (d ∷ term) (drop at haystack) refl))
    ]
  where
    next :
        (hit : Option ℕ)
        → ((i : ℕ)
            → count_loop fuel haystack (d ∷ term) (at + i + length (d ∷ term)) (count + 1)
              ≡ some (
                  count
                  + 1
                  + occurrences (d ∷ term) 0 (drop (at + i + length (d ∷ term)) haystack)))
        → count_next fuel haystack (d ∷ term) at count hit
          ≡ some (count + occurrences_from (d ∷ term) (drop at haystack) hit)
    next none ih = unfold count_next occurrences_from in ap some (omega arith)
    next (some i) ih =
        unfold count_next occurrences_from in
        ih i
        ∙ ap some (
            omega (
              arith,
              ap (λ t. occurrences (d ∷ term) 0 t) (drop-drop (i + length (d ∷ term)) at haystack),
              ap (λ n. occurrences (d ∷ term) 0 (drop n haystack))
                  (let q : at + i + length (d ∷ term) ≡ at + (i + length (d ∷ term)) =
                      omega arith in
                    q),
            ))

score_loop-total :
    (haystack : Bytes) (terms : List Bytes) (score : ℕ)
    → All IsWord terms
    → score_loop haystack terms score ≡ some (score + total haystack terms)
unfolding score_loop total
score_loop-total haystack [] score h = ap some (omega arith)
score_loop-total haystack (t ∷ ts) score h =
    rw (count_loop-occurrences (length haystack + 1) haystack t 0 0 h.0.0 (omega arith)) (
      score_loop-total haystack ts (score + (0 + occurrences t 0 haystack)) h.1
      ∙ ap some (omega arith))

-- The fuel is enough: `query_score` of a text and a query is, for a query with tokens, the number of
-- occurrences of each token in the text, summed, with 5 more where the whole query stands in the text
-- and 2 more where the text begins with it; and 0 for a query with no token.
pub query_score_lem :
    (haystack query : Bytes)
    → query_score haystack query
      ≡ some (
          if is_empty (tokenize query)
          then 0
          else total haystack (tokenize query)
            + (if not (is_empty query) && contains haystack query then 5 else 0)
            + (if not (is_empty query) && starts_with query haystack then 2 else 0))
unfolding query_score
query_score_lem haystack query = elim (Bool-cases (is_empty (tokenize query))) [
  | inl e ↦ rw e refl
  | inr e ↦
      rw (e, score_loop-total haystack (tokenize query) 0 (tokenize-IsWord query)) (ground arith)
]
