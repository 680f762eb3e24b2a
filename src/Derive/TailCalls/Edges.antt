-- ===== src/Derive/TailCalls/Edges.antt =====
-- The call edges that the tail calls are of.
use ghidrasql.Prelude.{
  ℤ, pos, eqb_ℤ, Bool, true, false, not, ◌&&◌, ◌||◌, none, some, List, [], ◌∷◌, ◌≡◌, refl, ◌∙◌, inl,
  inr, arith, if◌then◌else◌, is_empty, any, All, All-imp, eqb_ℤ_iff, Bool-cases, Option-cases,
}
use ghidrasql.Model.{FunctionRow, CallEdgeRow, TailCallRow}
use ghidrasql.Derive.{Source}
use ghidrasql.Derive.TailCalls.{
  function_at, near_end, tail_call_row, is_tail, same_site, tail_loop, first_interproc,
  derive_tail_call_rows,
}

-- Whether a row leads from a function, at an address that is not 0 or that is listed, to another
-- address that is not 0.
abbrev pub leaves : List FunctionRow → TailCallRow → Bool
leaves functions row =
    (not (eqb_ℤ row.src_func_addr (pos 0))
      || any (λ fn. eqb_ℤ fn.address row.src_func_addr) functions)
    && not (eqb_ℤ row.dst_func_addr (pos 0))
    && not (eqb_ℤ row.dst_func_addr row.src_func_addr)

-- Whether a row is of a call edge.
abbrev pub of_edge : TailCallRow → CallEdgeRow → Bool
of_edge row edge =
    eqb_ℤ row.src_func_addr edge.src_func_addr
    && eqb_ℤ row.call_site edge.call_site
    && eqb_ℤ row.dst_addr edge.dst_addr
    && eqb_ℤ row.dst_func_addr edge.dst_func_addr

abbrev pub Leaves : List FunctionRow → List CallEdgeRow → TailCallRow → Type 0
Leaves functions edges row = (leaves functions row ≡ true) × (any (of_edge row) edges ≡ true)

self_equal : (x : ℤ) → eqb_ℤ x x ≡ true
self_equal x = (eqb_ℤ_iff x x).1 refl

of_edge_lem : (edge : CallEdgeRow) → of_edge (tail_call_row edge) edge ≡ true
unfolding tail_call_row
of_edge_lem edge =
    rw
      (
        self_equal edge.src_func_addr,
        self_equal edge.call_site,
        self_equal edge.dst_addr,
        self_equal edge.dst_func_addr,
      )
      refl

front :
    (edge : CallEdgeRow) (edges : List CallEdgeRow)
    → any (of_edge (tail_call_row edge)) (edge ∷ edges) ≡ true
front edge edges = rw (of_edge_lem edge) refl

later :
    (functions : List FunctionRow) (edge : CallEdgeRow) (edges : List CallEdgeRow)
    (row : TailCallRow)
    → Leaves functions edges row
    → Leaves functions (edge ∷ edges) row
later functions edge edges row h = (h.0, rw h.1 (ground arith))

function_at-listed :
    (functions : List FunctionRow) (address : ℤ) (fn : FunctionRow)
    → function_at functions address ≡ some fn
    → any (λ f. eqb_ℤ f.address address) functions ≡ true
unfolding function_at
function_at-listed [] address fn h = cc
function_at-listed (f ∷ functions) address fn h =
    elim (Option-cases (function_at functions address)) [
      | inl e ↦ here (eqb_ℤ f.address address) (rw (function_at, e) at h)
      | inr (other, e) ↦ rw (function_at-listed functions address other e) (ground arith)
    ]
  where
    here :
        (b : Bool)
        → (if b then some f else none) ≡ some fn
        → (b || any (λ g. eqb_ℤ g.address address) functions) ≡ true
    here true k = refl
    here false k = cc

is_tail-Leaves :
    (functions : List FunctionRow) (edge : CallEdgeRow)
    → is_tail functions edge ≡ true
    → leaves functions (tail_call_row edge) ≡ true
unfolding is_tail tail_call_row
is_tail-Leaves functions edge h = elim (Option-cases (function_at functions edge.src_func_addr)) [
  | inl e ↦ absurd (false-ne-true (rw (is_tail, e) at h))
  | inr (fn, e) ↦
      last (near_end fn edge) (eqb_ℤ edge.src_func_addr (pos 0))
        (any (λ f. eqb_ℤ f.address edge.src_func_addr) functions)
        (not (eqb_ℤ edge.dst_func_addr (pos 0))) (not (eqb_ℤ edge.dst_func_addr edge.src_func_addr))
        (function_at-listed functions edge.src_func_addr fn e) (rw (is_tail, e) at h)
]
  where
    false-ne-true : false ≡ true → ⊥
    false-ne-true q = cc

    last :
        (near zero listed b c : Bool)
        → listed ≡ true
        → (near && (b && c)) ≡ true
        → ((not zero || listed) && b && c) ≡ true
    last near zero listed b c l k = ground arith

tail_loop-Leaves :
    (functions : List FunctionRow) (seen : List (ℤ × ℤ)) (edges : List CallEdgeRow)
    → All (Leaves functions edges) (tail_loop functions seen edges)
unfolding tail_loop
tail_loop-Leaves functions seen [] = tt
tail_loop-Leaves functions seen (edge ∷ edges) =
    let behind : (keys : List (ℤ × ℤ))
        → All (Leaves functions (edge ∷ edges)) (tail_loop functions keys edges) =
      λ keys.
        All-imp (Leaves functions edges) (Leaves functions (edge ∷ edges))
          (later functions edge edges) (tail_loop functions keys edges)
          (tail_loop-Leaves functions keys edges) in
    elim (Bool-cases (is_tail functions edge)) [
      | inr e ↦ rw e (behind seen)
      | inl e ↦ elim (Bool-cases (any (same_site edge) seen)) [
        | inl s ↦ rw (e, s) (behind seen)
        | inr s ↦
            rw (e, s)
              (
                (is_tail-Leaves functions edge e, front edge edges),
                behind ((edge.src_func_addr, edge.call_site) ∷ seen),
              )
      ]
    ]

-- Whether the second loop passes over an edge.
abbrev pub stays : CallEdgeRow → Bool
stays edge =
    eqb_ℤ edge.src_func_addr (pos 0)
    || eqb_ℤ edge.dst_func_addr (pos 0)
    || eqb_ℤ edge.src_func_addr edge.dst_func_addr

stays-Leaves :
    (functions : List FunctionRow) (edge : CallEdgeRow)
    → stays edge ≡ false
    → leaves functions (tail_call_row edge) ≡ true
unfolding tail_call_row
stays-Leaves functions edge h =
    let same = eqb_ℤ_iff edge.src_func_addr edge.dst_func_addr in
    let turned = eqb_ℤ_iff edge.dst_func_addr edge.src_func_addr in ground arith

first_interproc-Leaves :
    (functions : List FunctionRow) (edges : List CallEdgeRow)
    → All (Leaves functions edges) (first_interproc edges)
      × (not (is_empty (first_interproc edges)) ≡ any (λ e. not (stays e)) edges)
unfolding first_interproc
first_interproc-Leaves functions [] = (tt, refl)
first_interproc-Leaves functions (edge ∷ edges) =
    let rest = first_interproc-Leaves functions edges in
    elim (Bool-cases (stays edge)) [
      | inl e ↦ rw e (
        All-imp (Leaves functions edges) (Leaves functions (edge ∷ edges))
            (later functions edge edges) (first_interproc edges) rest.0,
        rest.1,
      )
      | inr e ↦ rw e (((stays-Leaves functions edge e, front edge edges), tt), refl)
    ]

-- Every row has the caller, the place, the target and the callee of one call edge; its caller's address
-- is not 0 or is that of a listed function, and its callee's is neither 0 nor that of the caller.
pub derive_tail_call_rows-Leaves :
    (source : Source)
    → All (Leaves source.read_functions.1 source.read_call_edges.1) (derive_tail_call_rows source)
unfolding derive_tail_call_rows
derive_tail_call_rows-Leaves source =
    elim (Bool-cases (is_empty (tail_loop source.read_functions.1 [] source.read_call_edges.1))) [
      | inl e ↦ rw e (first_interproc-Leaves source.read_functions.1 source.read_call_edges.1).0
      | inr e ↦ rw e (tail_loop-Leaves source.read_functions.1 [] source.read_call_edges.1)
    ]

-- Where some call edge joins two different addresses of functions, neither 0, there is a row: the second loop gives
-- one when the first finds no call near the end of its function.
pub derive_tail_call_rows-some :
    (source : Source)
    → any (λ e. not (stays e)) source.read_call_edges.1 ≡ true
    → is_empty (derive_tail_call_rows source) ≡ false
unfolding derive_tail_call_rows
derive_tail_call_rows-some source h =
    elim (Bool-cases (is_empty (tail_loop source.read_functions.1 [] source.read_call_edges.1))) [
      | inl e ↦ rw e (
          not_true (is_empty (first_interproc source.read_call_edges.1))
            ((first_interproc-Leaves source.read_functions.1 source.read_call_edges.1).1 ∙ h))
      | inr e ↦ rw e e
    ]
  where
    not_true : (b : Bool) → not b ≡ true → b ≡ false
    not_true b k = ground arith
