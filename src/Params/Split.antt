-- ===== src/Params/Split.antt =====
-- What the two splitting loops give for a text of pieces between commas.
use ghidrasql.Prelude.{
  ℕ, suc, ◌-◌, Bool, true, false, not, ◌&&◌, List, [], ◌∷◌, ◌++◌, append-nil, append_assoc, map,
  ◌≡◌, ◌≢◌, refl, sym, ap, ◌∙◌, inl, inr, arith, ◌==◌, if◌then◌else◌, Bytes, is_empty, select, All,
  Bool-cases,
}
use ghidrasql.Memory.Items.{trim_copy}
use ghidrasql.Params.{push_item, csv_loop, split_csv_params, pattern_loop, split_pattern_list}

abbrev pub NoComma : Bytes → Type 0
NoComma = All (λ c. c ≢ b',')

-- The pieces with commas between them: a first one and the others.
abbrev pub with_commas : Bytes → List Bytes → Bytes
with_commas piece [] = piece
with_commas piece (next ∷ pieces) = piece ++ b',' ∷ with_commas next pieces

-- The trimmed pieces that are not empty.
abbrev pub items : List Bytes → List Bytes
items pieces = select (λ s. not (is_empty s)) (map trim_copy pieces)

pattern_loop-piece :
    (piece rest current : Bytes) (out : List Bytes)
    → NoComma piece
    → pattern_loop (piece ++ rest) current out ≡ pattern_loop rest (current ++ piece) out
unfolding pattern_loop
pattern_loop-piece [] rest current out h = rw (append-nil current) refl
pattern_loop-piece (c ∷ piece) rest current out h =
    let e : (c == b',') ≡ false = ground (arith, h.0) in
    rw (pattern_loop, e)
      (pattern_loop-piece piece rest (current ++ c ∷ []) out h.1
        ∙ ap (λ t. pattern_loop rest t out) (append_assoc current (c ∷ []) piece))

push_item-items :
    (piece : Bytes) (out : List Bytes) (pieces : List Bytes)
    → push_item piece out ++ items pieces ≡ out ++ items (piece ∷ pieces)
push_item-items piece out pieces = elim (Bool-cases (is_empty (trim_copy piece))) [
  | inl e ↦ rw e refl
  | inr e ↦ rw e (append_assoc out (trim_copy piece ∷ []) (items pieces))
]

pattern_loop-with_commas :
    (piece : Bytes) (pieces : List Bytes) (out : List Bytes)
    → NoComma piece
    → All NoComma pieces
    → pattern_loop (with_commas piece pieces) [] out ≡ out ++ items (piece ∷ pieces)
unfolding pattern_loop
pattern_loop-with_commas piece [] out h k =
    ap (λ t. pattern_loop t [] out) (sym (append-nil piece))
    ∙ pattern_loop-piece piece [] [] out h
    ∙ sym (append-nil (push_item piece out))
    ∙ push_item-items piece out []
pattern_loop-with_commas piece (next ∷ pieces) out h k =
    pattern_loop-piece piece (b',' ∷ with_commas next pieces) [] out h
    ∙ pattern_loop-with_commas next pieces (push_item piece out) k.0 k.1
    ∙ push_item-items piece out (next ∷ pieces)

-- Pieces without commas, joined by commas: the pattern list has the trimmed pieces that are not
-- empty, in their order.
pub split_pattern_list_lem :
    (piece : Bytes) (pieces : List Bytes)
    → NoComma piece
    → All NoComma pieces
    → split_pattern_list (with_commas piece pieces) ≡ items (piece ∷ pieces)
unfolding split_pattern_list
split_pattern_list_lem piece pieces h k = pattern_loop-with_commas piece pieces [] h k

abbrev pub NoParen : Bytes → Type 0
NoParen = All (λ c. (c ≢ b'(') × (c ≢ b')'))

csv_loop-pattern_loop :
    (s cur : Bytes) (out : List Bytes) → NoParen s → csv_loop s cur 0 out ≡ pattern_loop s cur out
unfolding csv_loop pattern_loop
csv_loop-pattern_loop [] cur out h = refl
csv_loop-pattern_loop (c ∷ s) cur out h =
    let e : (c == b'(') ≡ false = ground (arith, h.0) in
    let f : (c == b')') ≡ false = ground (arith, h.0) in
    rw (e, f, and_true (c == b','))
      (csv_loop-pattern_loop s (if c == b',' then [] else cur ++ c ∷ [])
        (if c == b',' then push_item cur out else out) h.1)
  where
    and_true : (b : Bool) → (b && true) ≡ b
    and_true b = ground arith

-- Whether every comma of a text stands inside parentheses, `depth` being open in front of it.
unfoldable pub guarded : ℕ → Bytes → Bool
guarded depth [] = true
guarded depth (c ∷ s) =
    not (c == b',' && depth == 0)
    && guarded (if c == b'(' then suc depth else if c == b')' then depth - 1 else depth) s

-- Without parentheses, the parameters are the items of the pattern list.
pub split_csv_params-split_pattern_list :
    (s : Bytes) → NoParen s → split_csv_params s ≡ split_pattern_list s
unfolding split_csv_params split_pattern_list
split_csv_params-split_pattern_list s h = csv_loop-pattern_loop s [] [] h
