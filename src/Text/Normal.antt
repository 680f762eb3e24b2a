-- ===== src/Text/Normal.antt =====
-- What `normalize_text` and `squash_ws` return.
use ghidrasql.Prelude.{
  ℕ, Bool, true, false, ◌||◌, [], ◌∷◌, ◌++◌, map, ◌≡◌, ◌⊎◌, inl, refl, sym, ap, ◌∙◌, arith, ◌==◌,
  if◌then◌else◌, Bytes, space, is_lower, is_digit, All, All-append,
}
use ghidrasql.Text.{
  normal_char, blank_char, pop_space, squash_loop, squash, normalize_text, squash_ws, tokenize,
  join_tokens,
}
use ghidrasql.Text.Words.{squash-join_tokens, tokenize-IsWord, tokenize-join_tokens}

module _ (P : ℕ → Type 0) (blank : P space) where
  squash_loop-All :
      (s : Bytes) (prev : Bool) (out : Bytes) → All P s → All P out → All P (squash_loop s prev out)
  unfolding squash_loop
  squash_loop-All [] prev out hs ho = ho
  squash_loop-All (c ∷ s) prev out hs ho = squash_loop-All s _ _ hs.1 (next prev (c == space))
    where
      next :
          (p b : Bool) → All P (if b then (if p then out else out ++ space ∷ []) else out ++ c ∷ [])
      next true true = ho
      next false true = All-append P out (space ∷ []) ho (blank, tt)
      next p false = All-append P out (c ∷ []) ho (hs.0, tt)

  pop_space-All : (s : Bytes) → All P s → All P (pop_space s)
  unfolding pop_space
  pop_space-All [] h = tt
  pop_space-All (c ∷ []) h = last (c == space)
    where
      last : (b : Bool) → All P (if b then [] else c ∷ [])
      last true = tt
      last false = h
  pop_space-All (c ∷ d ∷ s) h = (h.0, pop_space-All (d ∷ s) h.1)

  squash-All : (s : Bytes) → All P s → All P (squash s)
  unfolding squash
  squash-All s h = pop_space-All _ (squash_loop-All s true [] h tt)

squash_idem : (s : Bytes) → squash (squash s) ≡ squash s
squash_idem s =
    rw (squash-join_tokens s, squash-join_tokens (join_tokens (tokenize s)))
      (ap join_tokens (tokenize-join_tokens (tokenize s) (tokenize-IsWord s)))

map_fixed : (f : ℕ → ℕ) (s : Bytes) → All (λ c. f c ≡ c) s → map f s ≡ s
map_fixed f [] h = refl
map_fixed f (c ∷ s) h = rw (h.0, map_fixed f s h.1)

All-map : (P : ℕ → Type 0) (f : ℕ → ℕ) → ((c : ℕ) → P (f c)) → (s : Bytes) → All P (map f s)
All-map P f h [] = tt
All-map P f h (c ∷ s) = (h c, All-map P f h s)

squash-map_idem :
    (f : ℕ → ℕ)
    → f space ≡ space
    → ((c : ℕ) → f (f c) ≡ f c)
    → (s : Bytes) → squash (map f (squash (map f s))) ≡ squash (map f s)
squash-map_idem f e h s =
    ap squash (map_fixed f _ (squash-All (λ c. f c ≡ c) e (map f s) (All-map (λ c. f c ≡ c) f h s)))
    ∙ squash_idem (map f s)

normal_char_idem : (c : ℕ) → normal_char (normal_char c) ≡ normal_char c
unfolding normal_char
normal_char_idem c = ground arith

blank_char_idem : (c : ℕ) → blank_char (blank_char c) ≡ blank_char c
unfolding blank_char
blank_char_idem c = ground arith

-- A byte that `normalize_text` may leave: a space, a digit or a small letter.
abbrev pub IsNormalChar : ℕ → Type 0
IsNormalChar c = (c ≡ space) ⊎ ((is_lower c || is_digit c) ≡ true)

normal_char-IsNormalChar : (c : ℕ) → IsNormalChar (normal_char c)
unfolding normal_char is_lower
normal_char-IsNormalChar c = ground arith

-- `normalize_text` of any text holds only spaces, digits and small letters, is its own tokens
-- joined by single spaces, and is not changed by a second `normalize_text`.
pub normalize_text_lem :
    (text : Bytes)
    → All IsNormalChar (normalize_text text)
      × (join_tokens (tokenize (normalize_text text)) ≡ normalize_text text)
      × (normalize_text (normalize_text text) ≡ normalize_text text)
unfolding normalize_text
normalize_text_lem text = (
  squash-All IsNormalChar (inl refl) _
      (All-map IsNormalChar normal_char normal_char-IsNormalChar text),
  sym (squash-join_tokens (squash (map normal_char text))) ∙ squash_idem (map normal_char text),
  squash-map_idem normal_char (unfold normal_char in refl) normal_char_idem text,
)

-- `squash_ws` of any text is its own tokens joined by single spaces, and is not changed by a second
-- `squash_ws`.
pub squash_ws_lem :
    (text : Bytes)
    → (join_tokens (tokenize (squash_ws text)) ≡ squash_ws text)
      × (squash_ws (squash_ws text) ≡ squash_ws text)
unfolding squash_ws
squash_ws_lem text = (
  sym (squash-join_tokens (squash (map blank_char text))) ∙ squash_idem (map blank_char text),
  squash-map_idem blank_char (unfold blank_char in refl) blank_char_idem text,
)
