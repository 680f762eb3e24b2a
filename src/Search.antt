-- ===== src/Search.antt =====
-- The search functions of src/lib/src/functions.cpp: which texts match a query, how they score, and
-- the snippet that is shown. Scores are whole numbers in the code's doubles; the weights, of which
-- one is 1.5, are counted here in halves.
pub mod Match
pub mod Score
mod Cut
pub mod Snippet
use ghidrasql.Prelude.{
  ℕ, zero, suc, ◌+◌, ◌-◌, ◌*◌, min, Bool, true, false, not, ◌&&◌, ◌||◌, Option, none, some, List,
  [], ◌∷◌, ◌++◌, ltb, leb, ◌==◌, if◌then◌else◌, ◌>>=◌, Bytes, codes, eqb, starts_with, find,
  contains, length, is_empty, drop, substr, ℤ, pos, negsuc, ltb_ℤ,
}
use mathlib.Core.Option
use ghidrasql.Text.{normalize_text, squash_ws, lower_ascii, tokenize}

-- The loop of `all_query_terms_match`.
terms_match : Bytes → List Bytes → Bool
terms_match haystack [] = true
terms_match haystack (term ∷ terms) = contains haystack term && terms_match haystack terms

unfoldable pub all_query_terms_match : Bytes → Bytes → Bool
unfolding terms_match
all_query_terms_match haystack_norm query_norm =
    if is_empty (tokenize query_norm)
    then false
    else terms_match haystack_norm (tokenize query_norm)

-- `s.find(p, pos)`
find_at : Bytes → ℕ → Bytes → Option ℕ
find_at p at s = if ltb (length s) at then none else Option.map (λ i. at + i) (find p (drop at s))

-- The counting loop of `query_score`, with `pos` and `count`. Each round moves `pos` by the length of
-- a term, so a term that is not empty ends it; `none` says that the fuel ran out.
count_loop : ℕ → Bytes → Bytes → ℕ → ℕ → Option ℕ
unfolding find_at
count_loop zero haystack term at count = none
count_loop (suc fuel) haystack term at count = elim (ltb at (length haystack)) [
  | false ↦ some count
  | true ↦ elim (find_at term at haystack) [
    | none ↦ some count
    | some i ↦ count_loop fuel haystack term (i + length term) (count + 1)
  ]
]

-- The sum over the terms.
score_loop : Bytes → List Bytes → ℕ → Option ℕ
unfolding count_loop
score_loop haystack [] score = some score
score_loop haystack (term ∷ terms) score = do
  count ← count_loop (length haystack + 1) haystack term 0 0
  score_loop haystack terms (score + count)

phrase_bonus : Bytes → Bytes → ℕ → ℕ
phrase_bonus haystack query score =
    let found = if not (is_empty query) && contains haystack query then score + 5 else score in
    if not (is_empty query) && starts_with query haystack then found + 2 else found

pub query_score : Bytes → Bytes → Option ℕ
unfolding score_loop phrase_bonus
query_score haystack_norm query_norm =
    if is_empty (tokenize query_norm)
    then some 0
    else Option.map (phrase_bonus haystack_norm query_norm)
        (score_loop haystack_norm (tokenize query_norm) 0)

-- `search_domain_weight`, in halves.
pub search_domain_weight : Bytes → ℕ
search_domain_weight domain =
    let d = normalize_text domain in
    if eqb d (codes "function") || eqb d (codes "symbol") || eqb d (codes "signature")
    then 6
    else if eqb d (codes "string") || eqb d (codes "comment")
    then 4
    else if eqb d (codes "type")
    then 3
    else 2

-- The clamp of the radius, an `int64_t`.
pub clamp_radius : ℤ → ℕ
clamp_radius (pos n) = if ltb n 8 then 8 else if ltb 512 n then 512 else n
clamp_radius (negsuc n) = 8

-- Where the snippet is centred: `hit_pos` and `hit_len`, `none` for `npos`.
better_hit : Bytes → Bytes → Option (ℕ × ℕ) → Option (ℕ × ℕ)
better_hit haystack_lower term hit =
    if is_empty term then hit else elim (find term haystack_lower) [
      | none ↦ hit
      | some at ↦ elim hit [
        | none ↦ some (at, length term)
        | some (p, n) ↦ if ltb at p then some (at, length term) else some (p, n)
      ]
    ]

hit_loop : Bytes → List Bytes → Option (ℕ × ℕ) → Option (ℕ × ℕ)
unfolding better_hit
hit_loop haystack_lower [] hit = hit
hit_loop haystack_lower (term ∷ terms) hit =
    hit_loop haystack_lower terms (better_hit haystack_lower term hit)

abbrev pub dots : Bytes
dots = codes "..."

-- The start of the text, when no term hits.
head_snippet : Bytes → ℕ → Bytes
head_snippet cleaned radius =
    let cap = min (radius * 2) (length cleaned) in
    if cap == length cleaned then cleaned else substr 0 cap cleaned ++ dots

snippet_start : ℕ → ℕ → ℕ
snippet_start radius hit_pos = if ltb radius hit_pos then hit_pos - radius else 0

snippet_end : Bytes → ℕ → ℕ → ℕ → ℕ
snippet_end cleaned radius hit_pos hit_len = min (length cleaned) (hit_pos + hit_len + radius)

window_snippet : Bytes → ℕ → ℕ → ℕ → Bytes
unfolding snippet_start snippet_end
window_snippet cleaned radius hit_pos hit_len =
    let start = snippet_start radius hit_pos in
    let end = snippet_end cleaned radius hit_pos hit_len in
    let out = substr start (end - start) cleaned in
    let led = if ltb 0 start then dots ++ out else out in
    if ltb end (length cleaned) then led ++ dots else led

pub search_snippet : Bytes → Bytes → ℤ → Bytes
unfolding clamp_radius hit_loop head_snippet window_snippet
search_snippet text query radius =
    if is_empty text
    then []
    else let cleaned = squash_ws text in
      elim (hit_loop (lower_ascii cleaned) (tokenize (normalize_text query)) none) [
        | none ↦ head_snippet cleaned (clamp_radius radius)
        | some (p, n) ↦ window_snippet cleaned (clamp_radius radius) p n
      ]
