-- ===== src/Text/Words.antt =====
-- `tokenize` and `join_tokens`, and the squashing loop as their composition.
use ghidrasql.Prelude.{
  ℕ, true, false, not, ◌&&◌, List, [], ◌∷◌, ◌++◌, append-nil, append_assoc, ◌≡◌, ◌≢◌, refl, sym, ap,
  ◌∙◌, arith, ◌==◌, ==_iff, if◌then◌else◌, Bytes, space, is_empty, All, All-append, Bool-cases, inl,
  inr,
}
use ghidrasql.Text.{pop_space, squash_loop, squash, token_loop, tokenize, join_loop, join_tokens}

-- A word holds no space, and is not empty.
abbrev pub Spaceless : Bytes → Type 0
Spaceless = All (λ c. c ≢ space)

abbrev pub IsWord : Bytes → Type 0
IsWord w = (is_empty w ≡ false) × Spaceless w

-- The words, each with a space behind it.
lead : List Bytes → Bytes
lead [] = []
lead (w ∷ ws) = w ++ (space ∷ lead ws)

lead-append : (ws vs : List Bytes) → lead (ws ++ vs) ≡ lead ws ++ lead vs
unfolding lead
lead-append [] vs = refl
lead-append (w ∷ ws) vs = simp (lead-append ws vs, append_assoc)

pop_space-append :
    (s : Bytes) (c : ℕ) → pop_space (s ++ c ∷ []) ≡ s ++ (if c == space then [] else c ∷ [])
unfolding pop_space
pop_space-append [] c = refl
pop_space-append (d ∷ []) c = refl
pop_space-append (d ∷ e ∷ s) c = ap (λ t. d ∷ t) (pop_space-append (e ∷ s) c)

pop_space-Spaceless :
    (s cur : Bytes) → is_empty cur ≡ false → Spaceless cur → pop_space (s ++ cur) ≡ s ++ cur
pop_space-Spaceless s [] e h = cc
pop_space-Spaceless s (c ∷ []) e h = rw pop_space-append (ground arith)
pop_space-Spaceless s (c ∷ d ∷ r) e h =
    rw (← append_assoc s (c ∷ []) (d ∷ r)) (pop_space-Spaceless (s ++ c ∷ []) (d ∷ r) refl h.1)

-- The words, each with a space before it.
trail : List Bytes → Bytes
trail [] = []
trail (w ∷ ws) = space ∷ (w ++ trail ws)

join_loop-trail :
    (ws : List Bytes) (out : Bytes)
    → All IsWord ws
    → is_empty out ≡ false
    → join_loop ws out ≡ out ++ trail ws
unfolding join_loop trail
join_loop-trail [] out h e = sym (append-nil out)
join_loop-trail ([] ∷ ws) out h e = cc (h.0.0)
join_loop-trail ((c ∷ w) ∷ ws) [] h e = cc
join_loop-trail ((c ∷ w) ∷ ws) (d ∷ out) h e =
    join_loop-trail ws (((d ∷ out) ++ space ∷ []) ++ (c ∷ w)) h.1 refl
    ∙ (rw (append_assoc, append_assoc) refl)

join_tokens-trail :
    (w : Bytes) (ws : List Bytes) → All IsWord (w ∷ ws) → join_tokens (w ∷ ws) ≡ w ++ trail ws
unfolding join_tokens
join_tokens-trail [] ws h = cc (h.0.0)
join_tokens-trail (c ∷ w) ws h = join_loop-trail ws (c ∷ w) h.1 refl

lead-trail : (ws : List Bytes) (cur : Bytes) → space ∷ (lead ws ++ cur) ≡ trail (ws ++ cur ∷ [])
unfolding lead trail
lead-trail [] cur = rw append-nil
lead-trail (w ∷ ws) cur = rw (append_assoc) (ap (λ t. space ∷ (w ++ t)) (lead-trail ws cur))

lead-join_tokens :
    (ws : List Bytes) (cur : Bytes)
    → All IsWord ws
    → IsWord cur
    → lead ws ++ cur ≡ join_tokens (ws ++ cur ∷ [])
unfolding lead
lead-join_tokens [] cur h hc =
    sym (join_tokens-trail cur [] (hc, tt) ∙ (unfold trail in append-nil cur))
lead-join_tokens (w ∷ ws) cur h hc = rw append_assoc (
    ap (λ t. w ++ t) (lead-trail ws cur)
    ∙ sym
        (join_tokens-trail w (ws ++ cur ∷ []) (h.0, All-append IsWord ws (cur ∷ []) h.1 (hc, tt))))

lead_closing : (v : Bytes) (vs : List Bytes) → lead (v ∷ vs) ≡ (v ++ trail vs) ++ space ∷ []
unfolding lead trail
lead_closing v [] = rw append-nil
lead_closing v (u ∷ vs) = rw append_assoc (ap (λ t. v ++ (space ∷ t)) (lead_closing u vs))

-- The text in front of the last space.
lead-pop_space : (ws : List Bytes) → All IsWord ws → pop_space (lead ws) ≡ join_tokens ws
lead-pop_space [] h = unfold lead pop_space join_tokens join_loop in refl
lead-pop_space (w ∷ ws) h =
    ap pop_space (lead_closing w ws)
    ∙ pop_space-append (w ++ trail ws) space
    ∙ append-nil (w ++ trail ws)
    ∙ sym (join_tokens-trail w ws h)

next_cur-Spaceless :
    (c : ℕ) (cur : Bytes) → Spaceless cur → Spaceless (if c == space then [] else cur ++ c ∷ [])
next_cur-Spaceless c cur h = elim (Bool-cases (c == space)) [
  | inl e ↦ rw e tt
  | inr e ↦ rw e (All-append (λ d. d ≢ space) cur (c ∷ []) h ((λ q. cc ((==_iff c space).1 q)), tt))
]

close-IsWord : (cur : Bytes) → Spaceless cur → not (is_empty cur) ≡ true → All IsWord (cur ∷ [])
close-IsWord [] h e = cc
close-IsWord (d ∷ cur) h e = ((refl, h), tt)

next_out-IsWord :
    (c : ℕ) (cur : Bytes) (out : List Bytes)
    → Spaceless cur
    → All IsWord out
    → All IsWord (if c == space && not (is_empty cur) then out ++ cur ∷ [] else out)
next_out-IsWord c [] out hc ho = elim (Bool-cases (c == space)) [
  | inl e ↦ rw e ho
  | inr e ↦ rw e ho
]
next_out-IsWord c (d ∷ cur) out hc ho = elim (Bool-cases (c == space)) [
  | inl e ↦ rw e (All-append IsWord out ((d ∷ cur) ∷ []) ho (close-IsWord (d ∷ cur) hc refl))
  | inr e ↦ rw e ho
]

-- Every token is a word, whatever the text.
token_loop-IsWord :
    (s cur : Bytes) (out : List Bytes)
    → Spaceless cur
    → All IsWord out
    → All IsWord (token_loop s cur out)
unfolding token_loop
token_loop-IsWord [] [] out hc ho = ho
token_loop-IsWord [] (d ∷ cur) out hc ho =
    All-append IsWord out ((d ∷ cur) ∷ []) ho ((refl, hc), tt)
token_loop-IsWord (c ∷ s) cur out hc ho =
    token_loop-IsWord s _ _ (next_cur-Spaceless c cur hc) (next_out-IsWord c cur out hc ho)

next_letter :
    (cur : Bytes) (c : ℕ) → Spaceless cur → (c == space) ≡ false → Spaceless (cur ++ c ∷ [])
next_letter cur c h e =
    All-append (λ d. d ≢ space) cur (c ∷ []) h ((λ q. cc ((==_iff c space).1 q)), tt)

lead_close :
    (out : List Bytes) (w : Bytes) → lead (out ++ w ∷ []) ++ [] ≡ (lead out ++ w) ++ space ∷ []
lead_close out w =
    append-nil _
    ∙ lead-append out (w ∷ [])
    ∙ (unfold lead in sym (append_assoc (lead out) w (space ∷ [])))

-- The squashing loop writes the words of the text with one space between two.
squash_loop-token_loop :
    (s cur : Bytes) (out : List Bytes)
    → Spaceless cur
    → All IsWord out
    → pop_space (squash_loop s (is_empty cur) (lead out ++ cur))
      ≡ join_tokens (token_loop s cur out)
unfolding squash_loop token_loop
squash_loop-token_loop [] [] out hc ho = rw append-nil (lead-pop_space out ho)
squash_loop-token_loop [] (d ∷ cur) out hc ho =
    pop_space-Spaceless (lead out) (d ∷ cur) refl hc ∙ lead-join_tokens out (d ∷ cur) ho (refl, hc)
squash_loop-token_loop (c ∷ s) [] out hc ho = elim (Bool-cases (c == space)) [
  | inl e ↦ rw e (squash_loop-token_loop s [] out tt ho)
  | inr e ↦
      rw e (rw append_assoc (squash_loop-token_loop s (c ∷ []) out (next_letter [] c tt e) ho))
]
squash_loop-token_loop (c ∷ s) (d ∷ cur) out hc ho = elim (Bool-cases (c == space)) [
  | inl e ↦ rw e (
      ap (λ t. pop_space (squash_loop s true t)) (sym (lead_close out (d ∷ cur)))
      ∙ squash_loop-token_loop s [] (out ++ (d ∷ cur) ∷ []) tt
          (All-append IsWord out ((d ∷ cur) ∷ []) ho ((refl, hc), tt)))
  | inr e ↦ rw e (
      rw append_assoc
        (squash_loop-token_loop s ((d ∷ cur) ++ c ∷ []) out (next_letter (d ∷ cur) c hc e) ho))
]

-- The tokens of any text hold no space and are not empty.
pub tokenize-IsWord : (s : Bytes) → All IsWord (tokenize s)
unfolding tokenize
tokenize-IsWord s = token_loop-IsWord s [] [] tt tt

-- Squashing a text is joining its tokens by single spaces.
pub squash-join_tokens : (s : Bytes) → squash s ≡ join_tokens (tokenize s)
unfolding squash tokenize lead
squash-join_tokens s = squash_loop-token_loop s [] [] tt tt

token_loop-append :
    (w rest cur : Bytes) (out : List Bytes)
    → Spaceless w
    → token_loop (w ++ rest) cur out ≡ token_loop rest (cur ++ w) out
unfolding token_loop
token_loop-append [] rest cur out h = rw append-nil
token_loop-append (c ∷ w) rest cur out h =
    ground (arith, token_loop-append w rest (cur ++ c ∷ []) out h.1, append_assoc cur (c ∷ []) w)

token_loop-space :
    (s cur : Bytes) (out : List Bytes)
    → is_empty cur ≡ false
    → token_loop (space ∷ s) cur out ≡ token_loop s [] (out ++ cur ∷ [])
token_loop-space s [] out e = cc
token_loop-space s (d ∷ cur) out e = unfold token_loop in refl

token_loop-trail :
    (ws : List Bytes) (cur : Bytes) (out : List Bytes)
    → All IsWord ws
    → is_empty cur ≡ false
    → token_loop (trail ws) cur out ≡ out ++ cur ∷ ws
unfolding trail
token_loop-trail ws [] out h e = cc
token_loop-trail [] (d ∷ cur) out h e = unfold token_loop in refl
token_loop-trail (w ∷ ws) (d ∷ cur) out h e =
    token_loop-space (w ++ trail ws) (d ∷ cur) out refl
    ∙ token_loop-append w (trail ws) [] (out ++ (d ∷ cur) ∷ []) h.0.1
    ∙ token_loop-trail ws w (out ++ (d ∷ cur) ∷ []) h.1 h.0.0
    ∙ append_assoc out ((d ∷ cur) ∷ []) (w ∷ ws)

-- Joining words and cutting the text again gives the words back.
pub tokenize-join_tokens : (ws : List Bytes) → All IsWord ws → tokenize (join_tokens ws) ≡ ws
unfolding tokenize
tokenize-join_tokens [] h = unfold join_tokens join_loop token_loop in refl
tokenize-join_tokens (w ∷ ws) h =
    rw (join_tokens-trail w ws h, token_loop-append w (trail ws) [] [] h.0.1)
      (token_loop-trail ws w [] h.1 h.0.0)
