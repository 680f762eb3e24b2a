-- ===== src/Tables/Window.antt =====
-- The windows that the constraints on an address fold into: `memory_bytes_window_from_args`, and the
-- windows of `make_byte_search_generator`.
pub mod Exact
use ghidrasql.Prelude.{
  ℕ, ℤ, pos, ◌+ℤ◌, ◌-ℤ◌, ltb_ℤ, eqb_ℤ, max_ℤ, min_ℤ, Bool, true, false, List, [], ◌∷◌,
  if◌then◌else◌,
}
use ghidrasql.Memory.Words.{int64_max, int64_min}

-- The operators of a constraint that the code tells apart; every other one is `other_op`.
pub data ConstraintOp : Type 0 where
  eq_op ge_op gt_op le_op lt_op other_op : ConstraintOp

pub record ConstraintArg : Type 0 where
  pub op : ConstraintOp
  pub value : ℤ

pub record MemoryBytesWindow : Type 0 where
  pub lo : ℤ
  pub hi : ℤ
  pub empty : Bool

abbrev pub whole_window : MemoryBytesWindow
whole_window = record { lo = int64_min; hi = int64_max; empty = false }

-- The cases of the `switch`.
abbrev pub at_least : MemoryBytesWindow → ℤ → MemoryBytesWindow
at_least w v = record w { lo = max_ℤ w.lo v }

abbrev pub at_most : MemoryBytesWindow → ℤ → MemoryBytesWindow
at_most w v = record w { hi = min_ℤ w.hi v }

unfoldable pub apply_constraint : ConstraintOp → ℤ → MemoryBytesWindow → MemoryBytesWindow
apply_constraint eq_op v w = at_most (at_least w v) v
apply_constraint ge_op v w = at_least w v
apply_constraint gt_op v w =
    if eqb_ℤ v int64_max then record w { empty = true } else at_least w (v +ℤ pos 1)
apply_constraint le_op v w = at_most w v
apply_constraint lt_op v w =
    if eqb_ℤ v int64_min then record w { empty = true } else at_most w (v -ℤ pos 1)
apply_constraint other_op v w = w

unfoldable pub fold_constraints : List ConstraintArg → MemoryBytesWindow → MemoryBytesWindow
unfolding apply_constraint
fold_constraints [] w = w
fold_constraints (arg ∷ args) w = fold_constraints args (apply_constraint arg.op arg.value w)

-- The two tests behind the loop.
abbrev pub closed_window : MemoryBytesWindow → MemoryBytesWindow
closed_window w =
    let checked : MemoryBytesWindow = if ltb_ℤ w.hi w.lo then record w { empty = true } else w in
    if checked.empty then record checked { lo = pos 1; hi = pos 0 } else checked

unfoldable pub memory_bytes_window_from_args : List ConstraintArg → MemoryBytesWindow
unfolding fold_constraints
memory_bytes_window_from_args args = closed_window (fold_constraints args whole_window)
