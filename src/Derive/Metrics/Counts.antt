-- ===== src/Derive/Metrics/Counts.antt =====
-- What the counts of a function are, and the bounds of its complexity.
use ghidrasql.Prelude.{
  ℕ, suc, ℤ, pos, +ℤ_parts, -ℤ_parts, eq_of_parts, ◌+ℤ◌, ◌-ℤ◌, ◌≤ℤ◌, eqb_ℤ, Bool, false, not, ◌&&◌,
  Option, none, some, List, [], ◌∷◌, ◌≡◌, refl, ap, ◌∙◌, inl, inr, arith, if◌then◌else◌, any, count,
  subst, Bool-cases, Option-cases,
}
use ghidrasql.Model.{FunctionRow, StringRow, XrefRow}
use ghidrasql.Ranges.{FunctionRange, build_function_ranges, range_function_for_address}
use ghidrasql.Derive.{Source}
use ghidrasql.Derive.Blocks.{derive_block_rows}
use ghidrasql.Derive.Calls.{derive_call_edge_rows}
use ghidrasql.Derive.Metrics.{
  bump, tally, no_counts, instr_step, block_step, known, call_out_step, call_in_step, string_step,
  cyclomatic_complexity, metric_row,
}

-- Whether a row adds one to the count of a key.
abbrev adds_one : Option (ℤ × ℤ) → ℤ → Bool
adds_one none x = false
adds_one (some (key, weight)) x = eqb_ℤ x key

abbrev IsUnit : Option (ℤ × ℤ) → Type 0
IsUnit none = Unit
IsUnit (some (key, weight)) = weight ≡ pos 1

add_pos : (m : ℤ) (n : ℕ) → (m +ℤ pos 1) +ℤ pos n ≡ m +ℤ pos (suc n)
add_pos m n =
    let p = +ℤ_parts m (pos 1) in
    let q = +ℤ_parts (m +ℤ pos 1) (pos n) in
    let r = +ℤ_parts m (pos (suc n)) in
    eq_of_parts ((m +ℤ pos 1) +ℤ pos n) (m +ℤ pos (suc n)) (omega arith)

add_zero : (m : ℤ) → m ≡ m +ℤ pos 0
add_zero m = let p = +ℤ_parts m (pos 0) in eq_of_parts m (m +ℤ pos 0) (omega arith)

zero_add : (n : ℕ) → pos 0 +ℤ pos n ≡ pos n
zero_add n = let p = +ℤ_parts (pos 0) (pos n) in eq_of_parts (pos 0 +ℤ pos n) (pos n) (omega arith)

-- A loop whose weights are 1 counts the rows of each key.
tally-count :
    {A : Type 0} (step : A → Option (ℤ × ℤ)) (unit : (x : A) → IsUnit (step x)) (xs : List A)
    (counts : ℤ → ℤ) (k : ℤ)
    → tally step xs counts k ≡ counts k +ℤ pos (count (λ x. adds_one (step x) k) xs)
unfolding tally
tally-count step unit [] counts k = add_zero (counts k)
tally-count step unit (x ∷ xs) counts k = elim (Option-cases (step x)) [
  | inl e ↦ rw e (tally-count step unit xs counts k)
  | inr ((key, weight), e) ↦ rw e (
      tally-count step unit xs (bump key weight counts) k
      ∙ bump_step key weight (count (λ y. adds_one (step y) k) xs) (subst IsUnit e (unit x)))
]
  where
    bump_step :
        (key weight : ℤ) (n : ℕ)
        → weight ≡ pos 1
        → bump key weight counts k +ℤ pos n ≡ counts k +ℤ pos (if eqb_ℤ k key then suc n else n)
    bump_step key weight n h = elim (Bool-cases (eqb_ℤ k key)) [
      | inl e ↦ rw (e, h) (add_pos (counts k) n)
      | inr e ↦ rw e refl
    ]

tally_unit :
    {A : Type 0} (step : A → Option (ℤ × ℤ)) (unit : (x : A) → IsUnit (step x)) (xs : List A)
    (k : ℤ)
    → tally step xs no_counts k ≡ pos (count (λ x. adds_one (step x) k) xs)
tally_unit step unit xs k =
    tally-count step unit xs no_counts k ∙ zero_add (count (λ x. adds_one (step x) k) xs)

known-IsUnit : (addr : ℤ) → IsUnit (known addr)
known-IsUnit addr = elim (Bool-cases (eqb_ℤ addr (pos 0))) [ inl e ↦ rw e tt | inr e ↦ rw e refl ]

count-ext :
    {A : Type 0} (p q : A → Bool) (same : (x : A) → p x ≡ q x) (xs : List A)
    → count p xs ≡ count q xs
count-ext p q same [] = refl
count-ext p q same (x ∷ xs) = rw (same x, count-ext p q same xs) refl

-- A row that names the function, which 0 does not.
abbrev pub names : ℤ → ℤ → Bool
names k addr = not (eqb_ℤ addr (pos 0)) && eqb_ℤ k addr

adds_one-known : (addr k : ℤ) → adds_one (known addr) k ≡ names k addr
adds_one-known addr k = elim (Bool-cases (eqb_ℤ addr (pos 0))) [
  | inl e ↦ rw e refl
  | inr e ↦ rw e refl
]

string_step-IsUnit :
    (ranges : List FunctionRange) (strings : List StringRow) (x : XrefRow)
    → IsUnit (string_step ranges strings x)
string_step-IsUnit ranges strings x =
    elim (Bool-cases (any (λ s. eqb_ℤ s.address x.to_ea) strings)) [
      | inl e ↦ rw e (known-IsUnit (range_function_for_address ranges x.from_ea))
      | inr e ↦ rw e tt
    ]

abbrev pub refers : List FunctionRange → List StringRow → ℤ → XrefRow → Bool
refers ranges strings k x =
    any (λ s. eqb_ℤ s.address x.to_ea) strings
    && names k (range_function_for_address ranges x.from_ea)

adds_one-string_step :
    (ranges : List FunctionRange) (strings : List StringRow) (k : ℤ) (x : XrefRow)
    → adds_one (string_step ranges strings x) k ≡ refers ranges strings k x
adds_one-string_step ranges strings k x =
    elim (Bool-cases (any (λ s. eqb_ℤ s.address x.to_ea) strings)) [
      | inl e ↦ rw e (adds_one-known (range_function_for_address ranges x.from_ea) k)
      | inr e ↦ rw e refl
    ]

-- The counts of a function's row: the instructions for which the lookup by address gives the address
-- of the function, so that a function at address 0 also counts every instruction outside all functions;
-- the blocks that name its address; and the call edges from and to it and the references to strings
-- from it, of which a function at address 0 counts none.
pub metric_row-counts :
    (source : Source) (fn : FunctionRow)
    → (let row = metric_row source fn in
        let ranges = build_function_ranges source.read_functions.1 in
        (row.instruction_count
          ≡ pos (
              count
                (λ i. eqb_ℤ fn.address (range_function_for_address ranges i.address))
                source.read_instructions.1))
        × (row.block_count
            ≡ pos (count (λ b. eqb_ℤ fn.address b.func_addr) (derive_block_rows source)))
        × (row.call_out_count
            ≡ pos (count (λ e. names fn.address e.src_func_addr) (derive_call_edge_rows source)))
        × (row.call_in_count
            ≡ pos (count (λ e. names fn.address e.dst_func_addr) (derive_call_edge_rows source)))
        × (row.string_ref_count
            ≡ pos (count (refers ranges source.read_strings.1 fn.address) source.read_xrefs.1)))
unfolding metric_row
metric_row-counts source fn =
    let ranges = build_function_ranges source.read_functions.1 in
    let edges = derive_call_edge_rows source in
    (
      tally_unit (instr_step ranges) (λ i. refl) source.read_instructions.1 fn.address,
      tally_unit block_step (λ b. refl) (derive_block_rows source) fn.address,
      tally_unit call_out_step (λ e. known-IsUnit e.src_func_addr) edges fn.address
          ∙ ap pos (
              count-ext (λ e. adds_one (call_out_step e) fn.address)
                (λ e. names fn.address e.src_func_addr)
                (λ e. adds_one-known e.src_func_addr fn.address) edges),
      tally_unit call_in_step (λ e. known-IsUnit e.dst_func_addr) edges fn.address
          ∙ ap pos (
              count-ext (λ e. adds_one (call_in_step e) fn.address)
                (λ e. names fn.address e.dst_func_addr)
                (λ e. adds_one-known e.dst_func_addr fn.address) edges),
      tally_unit (string_step ranges source.read_strings.1)
            (string_step-IsUnit ranges source.read_strings.1) source.read_xrefs.1 fn.address
          ∙ ap pos (
              count-ext (λ x. adds_one (string_step ranges source.read_strings.1 x) fn.address)
                (refers ranges source.read_strings.1 fn.address)
                (adds_one-string_step ranges source.read_strings.1 fn.address) source.read_xrefs.1),
    )

-- The complexity is at least 1.
pub cyclomatic_complexity_positive :
    (instructions blocks edges : ℤ) → pos 1 ≤ℤ cyclomatic_complexity instructions blocks edges
unfolding cyclomatic_complexity
cyclomatic_complexity_positive instructions blocks edges = ground arith

-- For a function with blocks whose edges number at least the blocks less one, the complexity is
-- edges - blocks + 2.
pub cyclomatic_complexity_lem :
    (instructions blocks edges : ℤ)
    → pos 1 ≤ℤ blocks
    → blocks ≤ℤ edges +ℤ pos 1
    → cyclomatic_complexity instructions blocks edges ≡ (edges -ℤ blocks) +ℤ pos 2
unfolding cyclomatic_complexity
cyclomatic_complexity_lem instructions blocks edges h k =
    let d = -ℤ_parts edges blocks in
    let s = +ℤ_parts (edges -ℤ blocks) (pos 2) in let t = +ℤ_parts edges (pos 1) in ground arith
