-- ===== src/Readers/Detail/Own.antt =====
-- What the decompilation of a function holds.
use ghidrasql.Prelude.{
  ℤ, eqb_ℤ, Bool, true, false, Option, none, some, List, [], ◌∷◌, ◌≡◌, refl, ap, subst, inl, inr,
  if◌then◌else◌, select, map, is_empty, Bytes, All, Bool-cases, arith,
}
use ghidrasql.Model.{FunctionRow, PseudocodeRow, DecompLvarRow, DecompilationDetail}
use ghidrasql.Readers.{Bulk, read_function_at}
use ghidrasql.Readers.Detail.{
  pseudo_row, detail_text, detail_start, with_function, mapped_local, with_locals, with_tokens,
  decompile_detail,
}

abbrev pub Own : ℤ → DecompilationDetail → Type 0
Own address detail =
    (detail.func_addr ≡ address)
    × (is_empty detail.pseudocode ≡ false)
    × All (λ local. eqb_ℤ local.func_addr address ≡ true) detail.locals
    × All (λ token. eqb_ℤ token.func_addr address ≡ true) detail.tokens

All-select : {A : Type 0} (p : A → Bool) (xs : List A) → All (λ x. p x ≡ true) (select p xs)
All-select p [] = tt
All-select p (x ∷ xs) = elim (Bool-cases (p x)) [
  | inl e ↦ rw e (e, All-select p xs)
  | inr e ↦ rw e (All-select p xs)
]

All-mapped :
    (name : Bytes) (address : ℤ) (xs : List DecompLvarRow)
    → All (λ l. eqb_ℤ l.func_addr address ≡ true) xs
    → All (λ l. eqb_ℤ l.func_addr address ≡ true) (map (mapped_local name) xs)
unfolding mapped_local
All-mapped name address [] h = tt
All-mapped name address (x ∷ xs) h = (h.0, All-mapped name address xs h.1)

detail_start-Own :
    (address : ℤ) (text : Bytes) (row : Option PseudocodeRow)
    → is_empty text ≡ false
    → Own address (detail_start address text row)
unfolding detail_start
detail_start-Own address text none h = (refl, h, tt, tt)
detail_start-Own address text (some row) h = (refl, h, tt, tt)

with_function-Own :
    (address : ℤ) (fn : Option FunctionRow) (d : DecompilationDetail)
    → Own address d
    → Own address (with_function fn d)
unfolding with_function
with_function-Own address none d h = h
with_function-Own address (some fn) d h = h

with_locals-Own :
    (bulk : Bulk) (address : ℤ) (d : DecompilationDetail)
    → Own address d
    → Own address (with_locals bulk address d)
unfolding with_locals
with_locals-Own bulk address d h = elim (Bool-cases bulk.read_decomp_lvars.0) [
  | inr e ↦ rw e h
  | inl e ↦ rw e (
    h.0,
    h.1,
    All-mapped d.func_name address
        (select (λ l. eqb_ℤ l.func_addr address) bulk.read_decomp_lvars.1)
        (All-select (λ l. eqb_ℤ l.func_addr address) bulk.read_decomp_lvars.1),
    h.3,
  )
]

with_tokens-Own :
    (bulk : Bulk) (address : ℤ) (d : DecompilationDetail)
    → Own address d
    → Own address (with_tokens bulk address d)
unfolding with_tokens
with_tokens-Own bulk address d h = elim (Bool-cases bulk.read_decomp_tokens.0) [
  | inr e ↦ rw e h
  | inl e ↦
      rw e (h.0, h.1, h.2, All-select (λ t. eqb_ℤ t.func_addr address) bulk.read_decomp_tokens.1)
]

text_detail :
    (bulk : Bulk) (address : ℤ) (detail : DecompilationDetail) (text : Bytes)
    → (if is_empty text
        then none
        else some (
            with_tokens bulk address (
              with_locals bulk address (
                with_function
                  (read_function_at bulk address)
                  (detail_start address text (pseudo_row bulk address))))))
      ≡ some detail
    → Own address detail
text_detail bulk address detail [] h = absurd (empty h)
  where
    empty : none ≡ some detail → ⊥
    empty k = ground arith
text_detail bulk address detail (c ∷ text) h =
    let start = detail_start address (c ∷ text) (pseudo_row bulk address) in
    let named = with_function (read_function_at bulk address) start in
    let filled = with_locals bulk address named in
    subst (Own address) (some_inj (with_tokens bulk address filled) h) (
      with_tokens-Own bulk address filled (
        with_locals-Own bulk address named (
          with_function-Own address (read_function_at bulk address) start
            (detail_start-Own address (c ∷ text) (pseudo_row bulk address) refl))))
  where
    some_inj : (g : DecompilationDetail) → some g ≡ some detail → g ≡ detail
    some_inj g k = ap (λ o. elim o [ none ↦ detail | some x ↦ x ]) k

-- A decompilation that is given is that of the address asked for, its text is not empty, and all its
-- locals and tokens are of the function at that address.
pub decompile_detail-Own :
    (decompiled : Bytes) (bulk : Bulk) (address : ℤ) (detail : DecompilationDetail)
    → decompile_detail decompiled bulk address ≡ some detail
    → Own address detail
unfolding decompile_detail
decompile_detail-Own decompiled bulk address detail h =
    text_detail bulk address detail (detail_text decompiled (pseudo_row bulk address)) h
