-- ===== src/Text/Sizes.antt =====
-- How long the normalised text and its tokens are.
use ghidrasql.Prelude.{
  ℕ, ◌+◌, ◌≤◌, Bool, true, false, not, List, [], ◌∷◌, ◌++◌, map, ◌≡◌, refl, arith, ◌==◌, inl, inr,
  if◌then◌else◌, Bytes, space, is_empty, length, length-append, All, All-append, Bool-cases,
}
use ghidrasql.Text.{
  normal_char, pop_space, squash_loop, squash, normalize_text, token_loop, tokenize,
}

token_loop-lengths :
    (s cur : Bytes) (out : List Bytes) (limit : ℕ)
    → length cur + length s ≤ limit
    → All (λ w. length w ≤ limit) out
    → All (λ w. length w ≤ limit) (token_loop s cur out)
unfolding token_loop
token_loop-lengths [] cur out limit h ho = close (is_empty cur)
  where
    close : (b : Bool) → All (λ w. length w ≤ limit) (if b then out else out ++ cur ∷ [])
    close true = ho
    close false = All-append _ out (cur ∷ []) ho (omega arith, tt)
token_loop-lengths (c ∷ s) cur out limit h ho = elim (Bool-cases (c == space)) [
  | inl e ↦ rw e (token_loop-lengths s [] _ limit (omega arith) (kept (not (is_empty cur))))
  | inr e ↦ rw e (
      token_loop-lengths s (cur ++ c ∷ []) out limit (omega (arith, length-append cur (c ∷ []))) ho)
]
  where
    kept : (b : Bool) → All (λ w. length w ≤ limit) (if b then out ++ cur ∷ [] else out)
    kept true = All-append _ out (cur ∷ []) ho (omega arith, tt)
    kept false = ho

-- No token is longer than its text.
pub tokenize-lengths : (s : Bytes) → All (λ w. length w ≤ length s) (tokenize s)
unfolding tokenize
tokenize-lengths s = token_loop-lengths s [] [] (length s) (omega arith) tt

length-squash_loop :
    (s : Bytes) (prev : Bool) (out : Bytes)
    → length (squash_loop s prev out) ≤ length out + length s
unfolding squash_loop
length-squash_loop [] prev out = omega arith
length-squash_loop (c ∷ s) prev out =
    omega
      (arith, length-squash_loop s (c == space) (next prev (c == space)), bound prev (c == space))
  where
    next : Bool → Bool → Bytes
    next p b = if b then (if p then out else out ++ space ∷ []) else out ++ c ∷ []

    bound : (p b : Bool) → length (next p b) ≤ length out + 1
    bound true true = omega arith
    bound false true = omega (arith, length-append out (space ∷ []))
    bound true false = omega (arith, length-append out (c ∷ []))
    bound false false = omega (arith, length-append out (c ∷ []))

length-pop_space : (s : Bytes) → length (pop_space s) ≤ length s
unfolding pop_space
length-pop_space [] = omega arith
length-pop_space (c ∷ []) = ground arith
length-pop_space (c ∷ d ∷ s) = omega (arith, length-pop_space (d ∷ s))

length-map : (f : ℕ → ℕ) (s : Bytes) → length (map f s) ≡ length s
length-map f [] = refl
length-map f (c ∷ s) = omega (arith, length-map f s)

-- Normalising makes no text longer.
pub normalize_text-length : (s : Bytes) → length (normalize_text s) ≤ length s
unfolding normalize_text squash
normalize_text-length s = omega (
  arith,
  length-pop_space (squash_loop (map normal_char s) true []),
  length-squash_loop (map normal_char s) true [],
  length-map normal_char s,
)
