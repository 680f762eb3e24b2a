-- ===== src/Text/Parted.antt =====
-- The words of two texts that a blank parts: tokens of `tokenize` and of `normalize_text`.
use ghidrasql.Prelude.{
  ◌&&◌, ◌+◌, map, append_assoc, append-nil, Bool, not, List, [], ◌∷◌, ◌++◌, ◌≡◌, refl, sym, ap, ◌∙◌,
  inl, inr, arith, ◌==◌, if◌then◌else◌, Bytes, space, is_empty, count, select, Bool-cases,
}
use ghidrasql.Text.{normal_char, squash, normalize_text, token_loop, tokenize}
use ghidrasql.Text.Words.{tokenize-IsWord, tokenize-join_tokens, squash-join_tokens}

token_loop-out :
    (s cur : Bytes) (out more : List Bytes)
    → token_loop s cur (out ++ more) ≡ out ++ token_loop s cur more
unfolding token_loop
token_loop-out [] [] out more = refl
token_loop-out [] (d ∷ cur) out more = append_assoc out more ((d ∷ cur) ∷ [])
token_loop-out (c ∷ s) cur out more = elim (Bool-cases (c == space && not (is_empty cur))) [
  | inl e ↦ rw e (
      ap (token_loop s (if c == space then [] else cur ++ c ∷ []))
        (append_assoc out more (cur ∷ []))
      ∙ token_loop-out s (if c == space then [] else cur ++ c ∷ []) out (more ++ cur ∷ []))
  | inr e ↦ rw e (token_loop-out s (if c == space then [] else cur ++ c ∷ []) out more)
]

token_loop-parted :
    (a b cur : Bytes) (out : List Bytes)
    → token_loop (a ++ space ∷ b) cur out ≡ token_loop a cur out ++ tokenize b
unfolding token_loop tokenize
token_loop-parted [] b [] out =
    ap (token_loop b []) (sym (append-nil out)) ∙ token_loop-out b [] out []
token_loop-parted [] b (d ∷ cur) out =
    ap (token_loop b []) (sym (append-nil (out ++ (d ∷ cur) ∷ [])))
    ∙ token_loop-out b [] (out ++ (d ∷ cur) ∷ []) []
token_loop-parted (c ∷ a) b cur out =
    token_loop-parted a b (if c == space then [] else cur ++ c ∷ [])
      (if c == space && not (is_empty cur) then out ++ cur ∷ [] else out)

tokenize-parted : (a b : Bytes) → tokenize (a ++ space ∷ b) ≡ tokenize a ++ tokenize b
unfolding tokenize
tokenize-parted a b = token_loop-parted a b [] []

tokenize-squash : (s : Bytes) → tokenize (squash s) ≡ tokenize s
tokenize-squash s =
    ap tokenize (squash-join_tokens s) ∙ tokenize-join_tokens (tokenize s) (tokenize-IsWord s)

map-parted :
    (a b : Bytes)
    → map normal_char (a ++ space ∷ b) ≡ map normal_char a ++ space ∷ map normal_char b
map-parted [] b = unfold normal_char in refl
map-parted (c ∷ a) b = ap (λ t. normal_char c ∷ t) (map-parted a b)

-- The words of a text.
abbrev pub words_of : Bytes → List Bytes
words_of s = tokenize (normalize_text s)

pub words_of-parted : (a b : Bytes) → words_of (a ++ space ∷ b) ≡ words_of a ++ words_of b
unfolding normalize_text
words_of-parted a b =
    tokenize-squash (map normal_char (a ++ space ∷ b))
    ∙ ap tokenize (map-parted a b)
    ∙ tokenize-parted (map normal_char a) (map normal_char b)
    ∙ (rw (tokenize-squash (map normal_char a), tokenize-squash (map normal_char b)) refl)

pub select-append :
    {A : Type 0} (p : A → Bool) (xs ys : List A) → select p (xs ++ ys) ≡ select p xs ++ select p ys
select-append p [] ys = refl
select-append p (x ∷ xs) ys = elim (Bool-cases (p x)) [
  | inl e ↦ rw e (ap (λ t. x ∷ t) (select-append p xs ys))
  | inr e ↦ rw e (select-append p xs ys)
]

pub count-append :
    {A : Type 0} (p : A → Bool) (xs ys : List A) → count p (xs ++ ys) ≡ count p xs + count p ys
count-append p [] ys = omega arith
count-append p (x ∷ xs) ys = ground (arith, count-append p xs ys)
