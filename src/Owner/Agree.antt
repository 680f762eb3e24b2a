-- ===== src/Owner/Agree.antt =====
-- The sorted sweep and the linear scan name the same owner.
use mathlib.Core.List.{reverse-cons}
use ghidrasql.Prelude.{
  ℤ, pos, eq_of_parts, ◌≤ℤ◌, ltb_ℤ, leb_ℤ, max_ℤ, Bool, true, false, not, ◌&&◌, ◌||◌, Option, none,
  some, List, [], ◌∷◌, ◌++◌, map, reverse, ◌≡◌, refl, sym, ap, ◌∙◌, inl, inr, arith, if◌then◌else◌,
  take, sort_by, insert_by, sort_by-Pairwise, Pairwise, All, All-imp, Bool-cases, Option-cases,
}
use ghidrasql.Model.{FunctionRow, InstructionRow, InstructionOperandRow}
use ghidrasql.Owner.{
  function_body_end, containing_loop, containing_func_addr, FuncSpan, func_span, span_before,
  build_spans, spans_until, walk_back, or_zero, owner, owned, owned_operand,
  assign_instruction_func_addrs, assign_operand_func_addrs,
}

abbrev max_start : ℤ → Option ℤ → ℤ
max_start x none = x
max_start x (some y) = max_ℤ x y

abbrev span_covers : ℤ → FuncSpan → Bool
span_covers addr s = leb_ℤ s.start addr && ltb_ℤ addr s.end

-- One more span.
abbrev greater : ℤ → FuncSpan → Option ℤ → Option ℤ
greater addr s rest = if span_covers addr s then some (max_start s.start rest) else rest

-- The greatest start of the spans that hold the address.
greatest : ℤ → List FuncSpan → Option ℤ
greatest addr [] = none
greatest addr (s ∷ spans) = greater addr s (greatest addr spans)

max_sym : (x y : ℤ) → max_ℤ x y ≡ max_ℤ y x
max_sym x y = let e = eq_of_parts x y in ground arith

max_assoc : (x y z : ℤ) → max_ℤ x (max_ℤ y z) ≡ max_ℤ y (max_ℤ x z)
max_assoc x y z = let e = eq_of_parts x y in ground arith

greater_swap :
    (addr : ℤ) (s t : FuncSpan) (rest : Option ℤ)
    → greater addr s (greater addr t rest) ≡ greater addr t (greater addr s rest)
greater_swap addr s t rest = elim (Bool-cases (span_covers addr s)) [
  | inl e ↦ elim (Bool-cases (span_covers addr t)) [
    | inl f ↦ rw (e, f) (both rest)
    | inr f ↦ rw (e, f) refl
  ]
  | inr e ↦ rw e refl
]
  where
    both :
        (r : Option ℤ)
        → some (max_start s.start (some (max_start t.start r)))
          ≡ some (max_start t.start (some (max_start s.start r)))
    both none = ap some (max_sym s.start t.start)
    both (some y) = ap some (max_assoc s.start t.start y)

greatest-insert :
    (addr : ℤ) (s : FuncSpan) (spans : List FuncSpan)
    → greatest addr (insert_by span_before s spans) ≡ greatest addr (s ∷ spans)
unfolding greatest insert_by
greatest-insert addr s [] = refl
greatest-insert addr s (t ∷ spans) = elim (Bool-cases (span_before t s)) [
  | inl e ↦ rw e (
      ap (greater addr t) (greatest-insert addr s spans)
      ∙ greater_swap addr t s (greatest addr spans))
  | inr e ↦ rw e refl
]

greatest-sort :
    (addr : ℤ) (spans : List FuncSpan)
    → greatest addr (sort_by span_before spans) ≡ greatest addr spans
unfolding greatest sort_by
greatest-sort addr [] = refl
greatest-sort addr (s ∷ spans) =
    greatest-insert addr s (sort_by span_before spans)
    ∙ ap (greater addr s) (greatest-sort addr spans)

abbrev InOrder : FuncSpan → FuncSpan → Type 0
InOrder s t = s.start ≤ℤ t.start

sorted_spans : (spans : List FuncSpan) → Pairwise InOrder (sort_by span_before spans)
sorted_spans =
    sort_by-Pairwise span_before InOrder (λ a b h. unfold span_before in ground arith)
      (λ a b h. unfold span_before in ground arith) (λ a b c h k. omega arith)

none_behind :
    (addr : ℤ) (spans : List FuncSpan)
    → All (λ t. ltb_ℤ addr t.start ≡ true) spans
    → greatest addr spans ≡ none
unfolding greatest
none_behind addr [] h = refl
none_behind addr (s ∷ spans) h = rw (not_cover s h.0) (none_behind addr spans h.1)
  where
    not_cover : (t : FuncSpan) → ltb_ℤ addr t.start ≡ true → span_covers addr t ≡ false
    not_cover t k = ground arith

greatest_above :
    (addr x low : ℤ) (spans : List FuncSpan)
    → All (λ t. low ≤ℤ t.start) spans
    → greatest addr spans ≡ some x
    → low ≤ℤ x
unfolding greatest
greatest_above addr x low [] h e = absurd (ground arith)
greatest_above addr x low (s ∷ spans) h e = elim (Option-cases (greatest addr spans)) [
  | inl n ↦ above_none (rw n at e)
  | inr (y, n) ↦ above_some y (greatest_above addr y low spans h.1 n) (rw n at e)
]
  where
    above_none : greater addr s none ≡ some x → low ≤ℤ x
    above_none k = ground (arith, h.0)

    above_some : (y : ℤ) → low ≤ℤ y → greater addr s (some y) ≡ some x → low ≤ℤ x
    above_some y q k = ground (arith, h.0)

walk-append :
    (addr : ℤ) (xs ys : List FuncSpan)
    → walk_back addr (xs ++ ys)
      ≡ (elim (walk_back addr xs) [ none ↦ walk_back addr ys | some x ↦ some x ])
unfolding walk_back
walk-append addr [] ys = refl
walk-append addr (s ∷ xs) ys = elim (Bool-cases (ltb_ℤ addr s.end)) [
  | inl e ↦ rw e refl
  | inr e ↦ rw e (walk-append addr xs ys)
]

walk_step :
    (addr : ℤ) (s : FuncSpan) (rest : Option ℤ)
    → ltb_ℤ addr s.start ≡ false
    → ((x : ℤ) → rest ≡ some x → s.start ≤ℤ x)
    → (elim rest [ none ↦ if ltb_ℤ addr s.end then some s.start else none | some x ↦ some x ])
      ≡ greater addr s rest
walk_step addr s none h k = ground arith
walk_step addr s (some x) h k = let e = eq_of_parts s.start x in let b = k x refl in ground arith

walk-greatest :
    (addr : ℤ) (spans : List FuncSpan)
    → Pairwise InOrder spans
    → walk_back addr (reverse (take (spans_until addr spans) spans)) ≡ greatest addr spans
unfolding spans_until walk_back greatest
walk-greatest addr [] o = refl
walk-greatest addr (s ∷ spans) o = elim (Bool-cases (ltb_ℤ addr s.start)) [
  | inl e ↦ rw e (
      sym (
        none_behind addr (s ∷ spans) (
          e,
          All-imp (InOrder s) (λ t. ltb_ℤ addr t.start ≡ true) (λ t h. ground arith) spans o.0,
        )))
  | inr e ↦
      rw (e, reverse-cons s (take (spans_until addr spans) spans))
        (walk-append addr (reverse (take (spans_until addr spans) spans)) (s ∷ [])
          ∙ ap (λ r. elim r [ none ↦ walk_back addr (s ∷ []) | some x ↦ some x ])
              (walk-greatest addr spans o.1)
          ∙ walk_step addr s (greatest addr spans) e
              (λ x h. greatest_above addr x s.start spans o.0 h))
]

-- The scan with a best function in hand.
better : Bool → ℤ → Option ℤ → ℤ
better false best rest = or_zero rest
better true best rest = max_start best rest

scan_step :
    (addr best : ℤ) (found : Bool) (s : FuncSpan) (rest : Option ℤ)
    → (let take_it = leb_ℤ s.start addr && ltb_ℤ addr s.end && (not found || ltb_ℤ best s.start) in
        better (if take_it then true else found) (if take_it then s.start else best) rest)
      ≡ better found best (greater addr s rest)
unfolding better
scan_step addr best false s none = ground arith
scan_step addr best false s (some x) = ground arith
scan_step addr best true s none = ground arith
scan_step addr best true s (some x) = ground arith

scan-greatest :
    (addr : ℤ) (funcs : List FunctionRow) (best : ℤ) (found : Bool)
    → containing_loop addr funcs best best found
      ≡ better found best (greatest addr (map func_span funcs))
unfolding containing_loop greatest better func_span
scan-greatest addr [] best true = refl
scan-greatest addr [] best false = refl
scan-greatest addr (fn ∷ funcs) best found =
    let pick =
      leb_ℤ fn.address addr
      && ltb_ℤ addr (function_body_end fn)
      && (not found || ltb_ℤ best fn.address) in
    scan-greatest addr funcs (if pick then fn.address else best) (if pick then true else found)
    ∙ scan_step addr best found (func_span fn) (greatest addr (map func_span funcs))

-- The walk finds the owner that the linear scan finds.
pub owner_lem :
    (funcs : List FunctionRow) (addr : ℤ)
    → owner (build_spans funcs) addr ≡ containing_func_addr funcs addr
unfolding owner build_spans containing_func_addr better
owner_lem funcs addr =
    ap or_zero (
      walk-greatest addr (sort_by span_before (map func_span funcs))
        (sorted_spans (map func_span funcs))
      ∙ greatest-sort addr (map func_span funcs))
    ∙ sym (scan-greatest addr funcs (pos 0) false)

abbrev pub scanned : List FunctionRow → InstructionRow → InstructionRow
scanned funcs insn = record insn { func_addr = containing_func_addr funcs insn.address }

abbrev pub scanned_operand : List FunctionRow → InstructionOperandRow → InstructionOperandRow
scanned_operand funcs op = record op { func_addr = containing_func_addr funcs op.address }

-- The sweep over the instructions gives each the owner that the linear scan finds, overlapping
-- bodies included, and leaves the rows otherwise as they are, in their order.
pub assign_instruction_func_addrs_lem :
    (funcs : List FunctionRow) (instructions : List InstructionRow)
    → assign_instruction_func_addrs funcs instructions ≡ map (scanned funcs) instructions
unfolding assign_instruction_func_addrs owned
assign_instruction_func_addrs_lem funcs [] = refl
assign_instruction_func_addrs_lem funcs (insn ∷ instructions) = owned-map (insn ∷ instructions)
  where
    owned-map :
        (rows : List InstructionRow)
        → map (owned (build_spans funcs)) rows ≡ map (scanned funcs) rows
    owned-map [] = refl
    owned-map (r ∷ rows) = rw (owner_lem funcs r.address, owned-map rows) refl

-- The sweep over the operands does the same.
pub assign_operand_func_addrs_lem :
    (funcs : List FunctionRow) (operands : List InstructionOperandRow)
    → assign_operand_func_addrs funcs operands ≡ map (scanned_operand funcs) operands
unfolding assign_operand_func_addrs owned_operand
assign_operand_func_addrs_lem funcs [] = refl
assign_operand_func_addrs_lem funcs (op ∷ operands) = owned-map (op ∷ operands)
  where
    owned-map :
        (rows : List InstructionOperandRow)
        → map (owned_operand (build_spans funcs)) rows ≡ map (scanned_operand funcs) rows
    owned-map [] = refl
    owned-map (r ∷ rows) = rw (owner_lem funcs r.address, owned-map rows) refl
