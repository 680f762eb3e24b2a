-- ===== src/Tables/Instructions/Rows.antt =====
-- Rows kept before and behind the sweep that gives them their owners.
use ghidrasql.Prelude.{
  ℤ, pos, ◌≤ℤ◌, +ℤ_parts, Bool, true, false, List, [], ◌∷◌, ◌≡◌, refl, sym, ap, ◌∙◌, inl, inr,
  arith, if◌then◌else◌, All, map, select, Bool-cases,
}
use ghidrasql.Model.{FunctionRow, InstructionRow}
use ghidrasql.Memory.Words.{InInt64}
use ghidrasql.Memory.Spans.{
  instruction_byte_span, byte_span_intersects_range, byte_span_intersects_range_iff,
}
use ghidrasql.Owner.{assign_instruction_func_addrs}
use ghidrasql.Owner.Agree.{scanned, assign_instruction_func_addrs_lem}

module _ {A B : Type 0} (p : B → Bool) (g : A → B) (q : A → Bool) where
  -- A first choice that keeps all that the second keeps is no loss.
  pub select-map-select :
      (xs : List A)
      → All (λ x. p (g x) ≡ true → q x ≡ true) xs
      → select p (map g (select q xs)) ≡ select p (map g xs)
  select-map-select [] h = refl
  select-map-select (x ∷ xs) h = elim (Bool-cases (q x)) [
    | inl e ↦ rw e (ap (λ t. if p (g x) then g x ∷ t else t) (select-map-select xs h.1))
    | inr e ↦ elim (Bool-cases (p (g x))) [
      | inl f ↦ absurd (two_faces (sym e ∙ h.0 f))
      | inr f ↦ rw (e, f) (select-map-select xs h.1)
    ]
  ]
    where
      two_faces : false ≡ true → ⊥
      two_faces k = ground arith

module _ {A : Type 0} (p q : A → Bool) where
  pub select_congr : (xs : List A) → All (λ x. p x ≡ q x) xs → select p xs ≡ select q xs
  select_congr [] h = refl
  select_congr (x ∷ xs) h = rw (h.0, select_congr xs h.1) refl

-- An instruction whose address and length are `int64_t` values.
abbrev pub Listed : InstructionRow → Type 0
Listed row = InInt64 row.address × InInt64 (instruction_byte_span row)

pub span_positive : (row : InstructionRow) → pos 1 ≤ℤ instruction_byte_span row
unfolding instruction_byte_span
span_positive row = ground arith

-- A row in a window meets the window.
pub meets_window :
    (row : InstructionRow) (lo hi : ℤ)
    → Listed row
    → lo ≤ℤ row.address
    → row.address ≤ℤ hi
    → byte_span_intersects_range row.address (instruction_byte_span row) lo hi ≡ true
meets_window row lo hi h l r =
    (byte_span_intersects_range_iff row.address (instruction_byte_span row) lo hi h.0 h.1).1 (
      let positive = span_positive row in
      let sum = +ℤ_parts row.address (instruction_byte_span row) in
      (row.address, omega arith, omega arith, h.0.1, l, r))

pub assign_select :
    (funcs : List FunctionRow) (p q : InstructionRow → Bool) (rows : List InstructionRow)
    → All (λ r. p (scanned funcs r) ≡ true → q r ≡ true) rows
    → select p (assign_instruction_func_addrs funcs (select q rows))
      ≡ select p (assign_instruction_func_addrs funcs rows)
assign_select funcs p q rows h =
    ap (select p) (assign_instruction_func_addrs_lem funcs (select q rows))
    ∙ select-map-select p (scanned funcs) q rows h
    ∙ sym (ap (select p) (assign_instruction_func_addrs_lem funcs rows))

pub assign_none :
    (funcs : List FunctionRow) (p : InstructionRow → Bool) (rows : List InstructionRow)
    → All (λ r. p (scanned funcs r) ≡ false) rows
    → select p (assign_instruction_func_addrs funcs rows) ≡ []
assign_none funcs p rows h =
    ap (select p) (assign_instruction_func_addrs_lem funcs rows) ∙ none_left rows h
  where
    none_left :
        (xs : List InstructionRow)
        → All (λ r. p (scanned funcs r) ≡ false) xs
        → select p (map (scanned funcs) xs) ≡ []
    none_left [] k = refl
    none_left (x ∷ xs) k = rw k.0 (none_left xs k.1)

pub All-any : {A : Type 0} (P : A → Type 0) → ((x : A) → P x) → (xs : List A) → All P xs
All-any P f [] = tt
All-any P f (x ∷ xs) = (f x, All-any P f xs)

pub assign_nil : (funcs : List FunctionRow) → assign_instruction_func_addrs funcs [] ≡ []
assign_nil funcs = assign_instruction_func_addrs_lem funcs []
