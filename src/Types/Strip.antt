-- ===== src/Types/Strip.antt =====
-- The tokens that `type_strip_cv` leaves.
use ghidrasql.Prelude.{
  ℕ, zero, suc, eqb, min, codes, append-nil, ◌↔◌, eqb_iff, subst, Bool, true, false, not, List, [],
  ◌∷◌, ◌++◌, ◌≡◌, ◌≢◌, refl, sym, ap, ◌∙◌, inl, inr, arith, ◌==◌, if◌then◌else◌, Bytes, space, elem,
  is_empty, count, select, replicate, All, All-append, Bool-cases,
}
use ghidrasql.Text.{
  normal_char, squash, normalize_text, token_loop, tokenize, join_loop, join_tokens,
}
use ghidrasql.Text.Words.{IsWord, tokenize-IsWord, tokenize-join_tokens}
use ghidrasql.Text.Parted.{words_of, words_of-parted, select-append, count-append}
use ghidrasql.Types.{push_marks, type_strip_cv}

join_loop-append :
    (ws vs : List Bytes) (out : Bytes) → join_loop (ws ++ vs) out ≡ join_loop vs (join_loop ws out)
unfolding join_loop
join_loop-append [] vs out = refl
join_loop-append (w ∷ ws) vs out =
    join_loop-append ws vs
      (if is_empty w then out else ((if is_empty out then out else out ++ space ∷ []) ++ w))

-- Appending marks is joining with as many one-byte tokens.
push_marks-join_loop :
    (n mark : ℕ) (out : Bytes) → push_marks n mark out ≡ join_loop (replicate n (mark ∷ [])) out
unfolding push_marks join_loop
push_marks-join_loop zero mark out = refl
push_marks-join_loop (suc n) mark out =
    push_marks-join_loop n mark ((if is_empty out then out else out ++ space ∷ []) ++ mark ∷ [])

push_marks-join_tokens :
    (n mark : ℕ) (ws : List Bytes)
    → push_marks n mark (join_tokens ws) ≡ join_tokens (ws ++ replicate n (mark ∷ []))
unfolding join_tokens
push_marks-join_tokens n mark ws =
    push_marks-join_loop n mark (join_loop ws [])
    ∙ sym (join_loop-append ws (replicate n (mark ∷ [])) [])

select-All :
    {A : Type 0} (P : A → Type 0) (p : A → Bool) (xs : List A) → All P xs → All P (select p xs)
select-All P p [] h = tt
select-All P p (x ∷ xs) h = elim (Bool-cases (p x)) [
  | inl e ↦ rw e (h.0, select-All P p xs h.1)
  | inr e ↦ rw e (select-All P p xs h.1)
]

marks-IsWord : (n mark : ℕ) → mark ≢ space → All IsWord (replicate n (mark ∷ []))
marks-IsWord zero mark h = tt
marks-IsWord (suc n) mark h = ((refl, (h, tt)), marks-IsWord n mark h)

star_ne : b'*' ≢ space
star_ne = omega arith

ampersand_ne : b'&' ≢ space
ampersand_ne = omega arith

-- The words that qualify a type.
abbrev pub qualifiers : List Bytes
qualifiers = codes "const" ∷ codes "volatile" ∷ codes "restrict" ∷ codes "mutable" ∷ []

-- Up to four marks of a kind.
abbrev pub marks : ℕ → Bytes → List Bytes
marks mark decl = replicate (min (count (λ c. c == mark) decl) 4) (mark ∷ [])

-- The tokens that stay: those that are no qualifiers, and up to four marks of either kind.
abbrev pub kept : Bytes → List Bytes
kept decl =
    (select (λ t. not (elem t qualifiers)) (tokenize (normalize_text decl)) ++ marks b'*' decl)
    ++ marks b'&' decl

kept-IsWord : (decl : Bytes) → All IsWord (kept decl)
kept-IsWord decl =
    let words = select (λ t. not (elem t qualifiers)) (tokenize (normalize_text decl)) in
    let stars = replicate (min (count (λ c. c == b'*') decl) 4) (b'*' ∷ []) in
    let refs = replicate (min (count (λ c. c == b'&') decl) 4) (b'&' ∷ []) in
    All-append IsWord (words ++ stars) refs
      (All-append IsWord words stars
        (select-All IsWord (λ t. not (elem t qualifiers)) (tokenize (normalize_text decl))
          (tokenize-IsWord (normalize_text decl)))
        (marks-IsWord (min (count (λ c. c == b'*') decl) 4) b'*' star_ne))
      (marks-IsWord (min (count (λ c. c == b'&') decl) 4) b'&' ampersand_ne)

is_empty_iff : (s : Bytes) → (is_empty s ≡ true) ↔ (s ≡ [])
is_empty_iff [] = (λ k. refl, λ k. refl)
is_empty_iff (c ∷ s) = (λ k. cc, λ k. cc)

join_tokens-nonempty :
    (ws : List Bytes) → All IsWord ws → is_empty ws ≡ false → is_empty (join_tokens ws) ≡ false
join_tokens-nonempty ws h e = elim (Bool-cases (is_empty (join_tokens ws))) [
  | inl f ↦ absurd (
      lost (
        sym (tokenize-join_tokens ws h)
        ∙ ap tokenize ((is_empty_iff (join_tokens ws)).0 f)
        ∙ (unfold tokenize token_loop in refl)))
  | inr f ↦ f
]
  where
    lost : ws ≡ [] → ⊥
    lost q = let k = ap is_empty q in cc

-- Where something stays, the result is what stays, joined.
type_strip_cv-join_tokens :
    (decl : Bytes) → is_empty (kept decl) ≡ false → type_strip_cv decl ≡ join_tokens (kept decl)
unfolding type_strip_cv
type_strip_cv-join_tokens decl h =
    let words = select (λ t. not (elem t qualifiers)) (tokenize (normalize_text decl)) in
    let stars = min (count (λ c. c == b'*') decl) 4 in
    let refs = min (count (λ c. c == b'&') decl) 4 in
    ap (λ out. if is_empty out then normalize_text decl else out)
      (ap (push_marks refs b'&') (push_marks-join_tokens stars b'*' words)
        ∙ push_marks-join_tokens refs b'&' (words ++ replicate stars (b'*' ∷ [])))
    ∙ (rw (join_tokens-nonempty (kept decl) (kept-IsWord decl) h) refl)

-- A qualifier has no mark and is its own word.
abbrev Plain : Bytes → Type 0
Plain q =
    (select (λ t. not (elem t qualifiers)) (words_of q) ≡ [])
    × (count (λ c. c == b'*') q ≡ 0)
    × (count (λ c. c == b'&') q ≡ 0)

-- A member of a list has what each element has.
elem-All : (P : Bytes → Type 0) (q : Bytes) (ts : List Bytes) → elem q ts ≡ true → All P ts → P q
unfolding elem
elem-All P q [] h all = cc
elem-All P q (t ∷ ts) h all = elim (Bool-cases (eqb q t)) [
  | inl e ↦ subst P (sym ((eqb_iff q t).0 e)) all.0
  | inr e ↦ elem-All P q ts (rw e at h) all.1
]

qualifier-Plain : (q : Bytes) → elem q qualifiers ≡ true → Plain q
unfolding normalize_text normal_char squash tokenize token_loop elem
qualifier-Plain q h =
    elem-All Plain q qualifiers h
      ((refl, refl, refl), ((refl, refl, refl), ((refl, refl, refl), ((refl, refl, refl), tt))))

marks-without :
    (mark : ℕ) (a q b : Bytes)
    → count (λ c. c == mark) q ≡ 0
    → (space == mark) ≡ false
    → marks mark (a ++ space ∷ (q ++ space ∷ b)) ≡ marks mark (a ++ space ∷ b)
marks-without mark a q b h e =
    ap (λ n. replicate (min n 4) (mark ∷ []))
      (rw
        (
          count-append (λ c. c == mark) a (space ∷ (q ++ space ∷ b)),
          count-append (λ c. c == mark) a (space ∷ b),
          e,
          count-append (λ c. c == mark) q (space ∷ b),
          h,
          e,
        )
        (omega arith))

kept-without :
    (a q b : Bytes)
    → elem q qualifiers ≡ true
    → kept (a ++ space ∷ (q ++ space ∷ b)) ≡ kept (a ++ space ∷ b)
kept-without a q b h =
    let plain = qualifier-Plain q h in
    let stays : Bytes → Bool = λ t. not (elem t qualifiers) in
    rw
      (
        marks-without b'*' a q b plain.1 refl,
        marks-without b'&' a q b plain.2 refl,
        words_of-parted a (q ++ space ∷ b),
        words_of-parted q b,
        words_of-parted a b,
        select-append stays (words_of a) (words_of q ++ words_of b),
        select-append stays (words_of q) (words_of b),
        select-append stays (words_of a) (words_of b),
        plain.0,
      )
      refl

marks-before :
    (mark : ℕ) (q b : Bytes)
    → count (λ c. c == mark) q ≡ 0
    → (space == mark) ≡ false
    → marks mark (q ++ space ∷ b) ≡ marks mark b
marks-before mark q b h e =
    ap (λ n. replicate (min n 4) (mark ∷ []))
      (rw (count-append (λ c. c == mark) q (space ∷ b), h, e) (omega arith))

marks-behind :
    (mark : ℕ) (a q : Bytes)
    → count (λ c. c == mark) q ≡ 0
    → (space == mark) ≡ false
    → marks mark (a ++ space ∷ q) ≡ marks mark a
marks-behind mark a q h e =
    ap (λ n. replicate (min n 4) (mark ∷ []))
      (rw (count-append (λ c. c == mark) a (space ∷ q), e, h) (omega arith))

kept-before : (q b : Bytes) → elem q qualifiers ≡ true → kept (q ++ space ∷ b) ≡ kept b
kept-before q b h =
    let plain = qualifier-Plain q h in
    rw
      (
        marks-before b'*' q b plain.1 refl,
        marks-before b'&' q b plain.2 refl,
        words_of-parted q b,
        select-append (λ t. not (elem t qualifiers)) (words_of q) (words_of b),
        plain.0,
      )
      refl

kept-behind : (a q : Bytes) → elem q qualifiers ≡ true → kept (a ++ space ∷ q) ≡ kept a
kept-behind a q h =
    let plain = qualifier-Plain q h in
    rw
      (
        marks-behind b'*' a q plain.1 refl,
        marks-behind b'&' a q plain.2 refl,
        words_of-parted a q,
        select-append (λ t. not (elem t qualifiers)) (words_of a) (words_of q),
        plain.0,
        append-nil (select (λ t. not (elem t qualifiers)) (words_of a)),
      )
      refl

same_kept :
    (decl longer : Bytes)
    → is_empty (kept decl) ≡ false
    → kept longer ≡ kept decl
    → type_strip_cv longer ≡ type_strip_cv decl
same_kept decl longer h same =
    type_strip_cv-join_tokens longer (ap is_empty same ∙ h)
    ∙ ap join_tokens same
    ∙ sym (type_strip_cv-join_tokens decl h)

-- For a type in which some token or some mark stays, cutting the result at its blanks gives the words
-- of the normal text without const, volatile, restrict and mutable, then up to four stars and up to
-- four ampersands; and with one of these four words in front of it or behind it the type has the same
-- result. So has a second such type, cut at a blank, with the word at the cut.
pub type_strip_cv-tokens :
    (decl front back qualifier : Bytes)
    → elem qualifier qualifiers ≡ true
    → is_empty (kept decl) ≡ false
    → is_empty (kept (front ++ space ∷ back)) ≡ false
    → (tokenize (type_strip_cv decl) ≡ kept decl)
      × (type_strip_cv (qualifier ++ space ∷ decl) ≡ type_strip_cv decl)
      × (type_strip_cv (decl ++ space ∷ qualifier) ≡ type_strip_cv decl)
      × (type_strip_cv (front ++ space ∷ (qualifier ++ space ∷ back))
          ≡ type_strip_cv (front ++ space ∷ back))
type_strip_cv-tokens decl front back qualifier q h k = (
  ap tokenize (type_strip_cv-join_tokens decl h)
      ∙ tokenize-join_tokens (kept decl) (kept-IsWord decl),
  same_kept decl (qualifier ++ space ∷ decl) h (kept-before qualifier decl q),
  same_kept decl (decl ++ space ∷ qualifier) h (kept-behind decl qualifier q),
  same_kept (front ++ space ∷ back) (front ++ space ∷ (qualifier ++ space ∷ back)) k
      (kept-without front qualifier back q),
)
