-- ===== src/Tables/Window/Exact.antt =====
-- The window holds the addresses that meet every constraint.
use ghidrasql.Prelude.{
  ℤ, pos, +ℤ_parts, -ℤ_parts, ltb_ℤ, leb_ℤ, eqb_ℤ, Bool, true, not, ◌&&◌, List, [], ◌∷◌, ◌≡◌, ap,
  ◌∙◌, arith,
}
use ghidrasql.Memory.Words.{InInt64}
use ghidrasql.Memory.Regions.Blocks.{in_window}
use ghidrasql.Tables.Window.{
  ConstraintOp, eq_op, ge_op, gt_op, le_op, lt_op, other_op, ConstraintArg, MemoryBytesWindow,
  whole_window, apply_constraint, fold_constraints, closed_window, memory_bytes_window_from_args,
}

-- What a constraint says of an address.
abbrev pub meets : ℤ → ConstraintOp → ℤ → Bool
meets a eq_op v = eqb_ℤ a v
meets a ge_op v = leb_ℤ v a
meets a gt_op v = ltb_ℤ v a
meets a le_op v = leb_ℤ a v
meets a lt_op v = ltb_ℤ a v
meets a other_op v = true

abbrev pub meets_all : ℤ → List ConstraintArg → Bool
meets_all a [] = true
meets_all a (arg ∷ args) = meets a arg.op arg.value && meets_all a args

abbrev inside : ℤ → MemoryBytesWindow → Bool
inside a w = not w.empty && in_window w.lo w.hi a

inside-apply_constraint :
    (a : ℤ) (op : ConstraintOp) (v : ℤ) (w : MemoryBytesWindow)
    → InInt64 a
    → inside a (apply_constraint op v w) ≡ (inside a w && meets a op v)
unfolding apply_constraint
inside-apply_constraint a eq_op v w h = ground arith
inside-apply_constraint a ge_op v w h = ground arith
inside-apply_constraint a gt_op v w h = let next = +ℤ_parts v (pos 1) in ground arith
inside-apply_constraint a le_op v w h = ground arith
inside-apply_constraint a lt_op v w h = let prev = -ℤ_parts v (pos 1) in ground arith
inside-apply_constraint a other_op v w h = ground arith

and_assoc : (x y z : Bool) → ((x && y) && z) ≡ (x && (y && z))
and_assoc x y z = ground arith

inside-fold_constraints :
    (a : ℤ) (args : List ConstraintArg) (w : MemoryBytesWindow)
    → InInt64 a
    → inside a (fold_constraints args w) ≡ (inside a w && meets_all a args)
unfolding fold_constraints
inside-fold_constraints a [] w h = and_true (inside a w)
  where
    and_true : (x : Bool) → x ≡ (x && true)
    and_true x = ground arith
inside-fold_constraints a (arg ∷ args) w h =
    inside-fold_constraints a args (apply_constraint arg.op arg.value w) h
    ∙ ap (λ t. t && meets_all a args) (inside-apply_constraint a arg.op arg.value w h)
    ∙ and_assoc (inside a w) (meets a arg.op arg.value) (meets_all a args)

in_window-closed_window :
    (a : ℤ) (w : MemoryBytesWindow)
    → in_window (closed_window w).lo (closed_window w).hi a ≡ inside a w
in_window-closed_window a w = ground arith

-- An address lies in the window exactly when it meets every constraint, `>` the greatest and `<` the
-- least address included, which nothing meets.
pub memory_bytes_window_from_args_lem :
    (a : ℤ) (args : List ConstraintArg)
    → InInt64 a
    → (let w = memory_bytes_window_from_args args in in_window w.lo w.hi a ≡ meets_all a args)
unfolding memory_bytes_window_from_args
memory_bytes_window_from_args_lem a args h =
    in_window-closed_window a (fold_constraints args whole_window)
    ∙ inside-fold_constraints a args whole_window h
    ∙ ap (λ t. t && meets_all a args) (whole a h)
  where
    whole : (x : ℤ) → InInt64 x → inside x whole_window ≡ true
    whole x k = ground arith
