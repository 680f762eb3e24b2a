-- ===== src/Readers/Keeps.antt =====
-- What the readers that read two kinds of rows keep.
use ghidrasql.Prelude.{
  ℤ, pos, eqb_ℤ, eqb_ℤ_iff, true, false, ◌&&◌, List, [], ◌∷◌, if◌then◌else◌, any, select, ◌≡◌, ◌≢◌,
  refl, sym, ◌∙◌, inl, inr, arith, Bool-cases,
}
use ghidrasql.Model.{FunctionRow, XrefRow}
use ghidrasql.Owner.{containing_func_addr}
use ghidrasql.Owner.Holds.{owns, containing_func_addr-owns}
use ghidrasql.Readers.{Bulk, read_xrefs_from_function}

any_address :
    (f addr : ℤ) (funcs : List FunctionRow)
    → any (owns f addr) funcs ≡ true
    → any (λ fn. eqb_ℤ fn.address f) funcs ≡ true
any_address f addr [] h = h
any_address f addr (g ∷ funcs) h = elim (Bool-cases (eqb_ℤ g.address f)) [
  | inl e ↦ rw e refl
  | inr e ↦ rw e (any_address f addr funcs (rw e at h))
]

none_owned :
    (funcs : List FunctionRow) (f : ℤ) (rows : List XrefRow)
    → f ≢ pos 0
    → any (λ fn. eqb_ℤ fn.address f) funcs ≡ false
    → select (λ row. eqb_ℤ (containing_func_addr funcs row.from_ea) f) rows ≡ []
none_owned funcs f [] n h = refl
none_owned funcs f (x ∷ rows) n h =
    elim (Bool-cases (eqb_ℤ (containing_func_addr funcs x.from_ea) f)) [
      | inr e ↦ rw e (none_owned funcs f rows n h)
      | inl e ↦ absurd (
          two_faces (
            sym h
            ∙ any_address f x.from_ea funcs (
                containing_func_addr-owns funcs x.from_ea f n
                  ((eqb_ℤ_iff (containing_func_addr funcs x.from_ea) f).0 e))))
    ]
  where
    two_faces : false ≡ true → ⊥
    two_faces k = ground arith

-- The cross references of a function, whose address is not 0, are those of the whole program whose
-- origin the function owns; the early return for an address at which no function starts loses none.
-- If one of the two bulk reads fails, the reader fails and gives none.
pub read_xrefs_from_function_lem :
    (bulk : Bulk) (function_address : ℤ)
    → function_address ≢ pos 0
    → read_xrefs_from_function bulk function_address ≡ (
        if bulk.read_xrefs.0 && bulk.read_functions.0
        then (
          true,
          select
              (λ row.
                eqb_ℤ (containing_func_addr bulk.read_functions.1 row.from_ea) function_address)
              bulk.read_xrefs.1,
        )
        else (false, []))
unfolding read_xrefs_from_function
read_xrefs_from_function_lem bulk f n =
    elim (Bool-cases (any (λ fn. eqb_ℤ fn.address f) bulk.read_functions.1)) [
      | inl e ↦ rw e refl
      | inr e ↦ rw (e, none_owned bulk.read_functions.1 f bulk.read_xrefs.1 n e) refl
    ]
