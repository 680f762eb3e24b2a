-- ===== src/Derive/Calls/Once.antt =====
-- Each key stands once among the derived call edges.
use ghidrasql.Prelude.{
  ℕ, suc, pos, eqb_ℤ, eqb, is_empty, codes, ◌⊎◌, eqb_ℤ_iff, Bool, true, false, not, ◌&&◌, ◌||◌,
  List, [], ◌∷◌, ◌≡◌, ◌↔◌, refl, ap, ◌∙◌, inl, inr, arith, ◌==◌, if◌then◌else◌, eqb_iff, any, count,
  Bool-cases,
}
use ghidrasql.Model.{FunctionRow, XrefRow, CallEdgeRow}
use ghidrasql.Ranges.{FunctionRange, build_function_ranges, range_function_for_address}
use ghidrasql.Derive.{Source, direct_or}
use ghidrasql.Derive.Calls.{
  CallEdgeKey, key_eqb, edge_key, call_edge_row, call_loop, derive_call_edge_rows,
}

key_eqb_iff : (a b : CallEdgeKey) → (key_eqb a b ≡ true) ↔ (a ≡ b)
key_eqb_iff a b =
    let e = eqb_ℤ_iff a.src b.src in
    let f = eqb_ℤ_iff a.site b.site in
    let g = eqb_ℤ_iff a.dst b.dst in let h = eqb_iff a.kind b.kind in ground arith

abbrev pub has_key : CallEdgeKey → CallEdgeRow → Bool
has_key k row = key_eqb k (edge_key row)

-- Whether a reference is code and has the key: the function that holds its place, its place, the
-- function that holds its target or else the target, and its kind, which is `call` where it names none.
abbrev pub gives : List FunctionRange → CallEdgeKey → XrefRow → Bool
gives ranges k x =
    let holder = range_function_for_address ranges x.to_ea in
    not (x.is_code == 0)
    && (eqb_ℤ k.src (range_function_for_address ranges x.from_ea)
        && eqb_ℤ k.site x.from_ea
        && eqb_ℤ k.dst (if eqb_ℤ holder (pos 0) then x.to_ea else holder)
        && eqb k.kind (if is_empty x.kind then codes "call" else x.kind))

abbrev one_if : Bool → ℕ
one_if b = if b then 1 else 0

again_step :
    (has rest old : Bool)
    → (has ≡ true → old ≡ true)
    → one_if (rest && not old) ≡ one_if ((has || rest) && not old)
again_step has rest old h = ground arith

new_step :
    (has rest old : Bool) (c : ℕ)
    → (has ≡ true → old ≡ false)
    → c ≡ one_if (rest && not (has || old))
    → (if has then suc c else c) ≡ one_if ((has || rest) && not old)
new_step has rest old c h k = ground arith

call_loop-count :
    (ranges : List FunctionRange) (functions : List FunctionRow) (seen : List CallEdgeKey)
    (xrefs : List XrefRow) (k : CallEdgeKey)
    → count (has_key k) (call_loop ranges functions seen xrefs)
      ≡ one_if (any (gives ranges k) xrefs && not (any (key_eqb k) seen))
unfolding call_loop call_edge_row
call_loop-count ranges functions seen [] k = refl
call_loop-count ranges functions seen (x ∷ xrefs) k =
    let key = edge_key (call_edge_row ranges functions x) in
    let rest = any (gives ranges k) xrefs in
    let old = any (key_eqb k) seen in
    let same : key_eqb k key ≡ true → old ≡ any (key_eqb key) seen =
      λ e. ap (λ t. any (key_eqb t) seen) ((key_eqb_iff k key).0 e) in
    elim (Bool-cases (x.is_code == 0)) [
      | inl e ↦ rw e (call_loop-count ranges functions seen xrefs k)
      | inr e ↦ elim (Bool-cases (any (key_eqb key) seen)) [
        | inl s ↦
            rw (e, s)
              (call_loop-count ranges functions seen xrefs k
                ∙ again_step (key_eqb k key) rest old (λ h. same h ∙ s))
        | inr s ↦
            rw (e, s)
              (new_step (key_eqb k key) rest old
                (count (has_key k) (call_loop ranges functions (key ∷ seen) xrefs))
                (λ h. same h ∙ s) (call_loop-count ranges functions (key ∷ seen) xrefs k))
      ]
    ]

-- A source has no call edges of its own: they cannot be read, or there are none.
abbrev pub NoDirect : Source → Type 0
NoDirect source = (source.read_call_edges.0 ≡ false) ⊎ (source.read_call_edges.1 ≡ [])

-- For a source whose own call edges cannot be read or are none: a key (caller, place, callee, kind)
-- stands once among the derived edges when some code reference has it, and else not at all.
pub derive_call_edge_rows-count :
    (source : Source) (k : CallEdgeKey)
    → NoDirect source
    → count (has_key k) (derive_call_edge_rows source) ≡ (
        if any (gives (build_function_ranges source.read_functions.1) k) source.read_xrefs.1
        then 1
        else 0)
unfolding derive_call_edge_rows
derive_call_edge_rows-count source k h =
    let functions = source.read_functions.1 in
    let ranges = build_function_ranges functions in
    ap (count (has_key k)) (derived (call_loop ranges functions [] source.read_xrefs.1) h)
    ∙ call_loop-count ranges functions [] source.read_xrefs.1 k
    ∙ none_old (any (gives ranges k) source.read_xrefs.1)
  where
    derived :
        (rows : List CallEdgeRow) → NoDirect source → direct_or source.read_call_edges rows ≡ rows
    derived rows (inl e) = rw e refl
    derived rows (inr e) = rw e (ground arith)

    none_old : (b : Bool) → one_if (b && not false) ≡ (if b then 1 else 0)
    none_old b = ground arith
