-- ===== src/Owner/Holds.antt =====
-- What an owner found by the scan is: a function that holds the address.
use ghidrasql.Prelude.{
  ℤ, pos, ltb_ℤ, leb_ℤ, eqb_ℤ, eqb_ℤ_iff, Bool, true, false, not, ◌&&◌, ◌||◌, some, List, [], ◌∷◌,
  ◌≡◌, ◌≢◌, refl, sym, ◌∙◌, subst, ◌⊎◌, inl, inr, arith, if◌then◌else◌, any, All, Pairwise,
  Bool-cases,
}
use ghidrasql.Model.{FunctionRow}
use ghidrasql.Owner.{function_body_end, containing_loop, containing_func_addr}
use ghidrasql.Readers.{find_if}

abbrev pub holds_addr : ℤ → FunctionRow → Bool
holds_addr addr fn = leb_ℤ fn.address addr && ltb_ℤ addr (function_body_end fn)

-- The function at an address holds another address.
abbrev pub owns : ℤ → ℤ → FunctionRow → Bool
owns owner addr fn = eqb_ℤ fn.address owner && holds_addr addr fn

eqb_refl : (x : ℤ) → eqb_ℤ x x ≡ true
eqb_refl x = (eqb_ℤ_iff x x).1 refl

abbrev Found : ℤ → Bool → ℤ → List FunctionRow → ℤ → Type 0
Found best found addr funcs r =
    (r ≡ (if found then best else pos 0)) ⊎ (any (owns r addr) funcs ≡ true)

any_cons :
    (p : FunctionRow → Bool) (fn : FunctionRow) (funcs : List FunctionRow)
    → any p funcs ≡ true
    → any p (fn ∷ funcs) ≡ true
any_cons p fn funcs h = ground (arith, h)

any_head :
    (p : FunctionRow → Bool) (fn : FunctionRow) (funcs : List FunctionRow)
    → p fn ≡ true
    → any p (fn ∷ funcs) ≡ true
any_head p fn funcs h = rw h refl

pick_step :
    (addr : ℤ) (fn : FunctionRow) (funcs : List FunctionRow) (best : ℤ) (found pick : Bool) (r : ℤ)
    → (pick ≡ true → holds_addr addr fn ≡ true)
    → Found (if pick then fn.address else best) (if pick then true else found) addr funcs r
    → Found best found addr (fn ∷ funcs) r
pick_step addr fn funcs best found true r h (inl e) = inr (
    any_head (owns r addr) fn funcs
      (subst (λ x. owns x addr fn ≡ true) (sym e) (rw (h refl, eqb_refl fn.address) refl)))
pick_step addr fn funcs best found true r h (inr k) = inr (any_cons (owns r addr) fn funcs k)
pick_step addr fn funcs best found false r h (inl e) = inl e
pick_step addr fn funcs best found false r h (inr k) = inr (any_cons (owns r addr) fn funcs k)

front_true : (x y z : Bool) → (x && y && z) ≡ true → (x && y) ≡ true
front_true x y z h = ground arith

containing_loop-Found :
    (addr : ℤ) (funcs : List FunctionRow) (best : ℤ) (found : Bool)
    → Found best found addr funcs (containing_loop addr funcs best best found)
unfolding containing_loop
containing_loop-Found addr [] best found = inl refl
containing_loop-Found addr (fn ∷ funcs) best found =
    let low = leb_ℤ fn.address addr in
    let high = ltb_ℤ addr (function_body_end fn) in
    let new = not found || ltb_ℤ best fn.address in
    let pick = low && high && new in
    pick_step addr fn funcs best found pick (containing_loop addr (fn ∷ funcs) best best found)
      (front_true low high new)
      (containing_loop-Found addr funcs (if pick then fn.address else best)
        (if pick then true else found))

-- An owner other than 0 is the address of a function that holds the address.
pub containing_func_addr-owns :
    (funcs : List FunctionRow) (addr owner : ℤ)
    → owner ≢ pos 0
    → containing_func_addr funcs addr ≡ owner
    → any (owns owner addr) funcs ≡ true
unfolding containing_func_addr
containing_func_addr-owns funcs addr owner n e =
    elim (containing_loop-Found addr funcs (pos 0) false) [
      | inl z ↦ absurd (n (sym e ∙ z))
      | inr h ↦ subst (λ r. any (owns r addr) funcs ≡ true) e h
    ]

abbrev pub Apart : FunctionRow → FunctionRow → Type 0
Apart f g = eqb_ℤ g.address f.address ≡ false

owns_none :
    (f addr : ℤ) (funcs : List FunctionRow)
    → All (λ g. eqb_ℤ g.address f ≡ false) funcs
    → any (owns f addr) funcs ≡ false
owns_none f addr [] h = refl
owns_none f addr (g ∷ funcs) h = rw h.0 (owns_none f addr funcs h.1)

-- Where each address has one function at most, the first function at the owner's address holds the
-- address.
pub find_if-holds :
    (f addr : ℤ) (funcs : List FunctionRow)
    → Pairwise Apart funcs
    → any (owns f addr) funcs ≡ true
    → (fn : FunctionRow) × (find_if (λ row. eqb_ℤ row.address f) funcs ≡ some fn)
      × (holds_addr addr fn ≡ true)
find_if-holds f addr [] d h = absurd (ground arith)
find_if-holds f addr (g ∷ funcs) d h = elim (Bool-cases (eqb_ℤ g.address f)) [
  | inl e ↦ (g, rw e refl, here e)
  | inr e ↦ let rest = find_if-holds f addr funcs d.1 (rw e at h) in (rest.0, rw e rest.1, rest.2)
]
  where
    or_left : (x y z : Bool) → x ≡ true → z ≡ false → ((x && y) || z) ≡ true → y ≡ true
    or_left x y z p q r = ground arith

    here : eqb_ℤ g.address f ≡ true → holds_addr addr g ≡ true
    here e =
        or_left (eqb_ℤ g.address f) (holds_addr addr g) (any (owns f addr) funcs) e
          (owns_none f addr funcs (
            subst (λ x. All (λ k. eqb_ℤ k.address x ≡ false) funcs) ((eqb_ℤ_iff g.address f).0 e)
              d.0))
          h
