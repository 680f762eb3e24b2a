-- ===== src/Memory/Pages/Runs.antt =====
-- Runs of addresses, up and down, and the 64-bit arithmetic on their bounds.
use ghidrasql.Prelude.{
  ℕ, zero, suc, ◌+◌, ◌≤◌, ◌<◌, ℤ, pos, negsuc, pos_part, neg_part, ◌+ℤ◌, ◌-ℤ◌, ◌≤ℤ◌, +ℤ_parts,
  -ℤ_parts, eq_of_parts, eqb_ℤ, Bool, true, false, List, [], ◌∷◌, ◌++◌, if◌then◌else◌, ◌≡◌, sym, ap,
  ◌∙◌, arith,
}
use ghidrasql.Memory.Words.{int64_min, InInt64, addr_distance, addr_distance_lem}
use ghidrasql.Memory.Pages.{addr_sub}

-- `n` addresses up or down from one.
abbrev pub run : Bool → ℤ → ℕ → List ℤ
run descending a zero = []
run descending a (suc n) = a ∷ run descending (if descending then a -ℤ pos 1 else a +ℤ pos 1) n

-- `i` addresses further in the direction of the walk.
abbrev pub further : Bool → ℤ → ℕ → ℤ
further true a i = a -ℤ pos i
further false a i = a +ℤ pos i

pub further_zero : (d : Bool) (a : ℤ) → further d a 0 ≡ a
further_zero true a = let s = -ℤ_parts a (pos 0) in eq_of_parts (a -ℤ pos 0) a (omega arith)
further_zero false a = let s = +ℤ_parts a (pos 0) in eq_of_parts (a +ℤ pos 0) a (omega arith)

pub further-suc :
    (d : Bool) (a : ℤ) (i : ℕ)
    → further d (if d then a -ℤ pos 1 else a +ℤ pos 1) i ≡ further d a (suc i)
further-suc true a i =
    let s = -ℤ_parts a (pos 1) in
    let t = -ℤ_parts (a -ℤ pos 1) (pos i) in
    let u = -ℤ_parts a (pos (suc i)) in
    eq_of_parts ((a -ℤ pos 1) -ℤ pos i) (a -ℤ pos (suc i)) (omega arith)
further-suc false a i =
    let s = +ℤ_parts a (pos 1) in
    let t = +ℤ_parts (a +ℤ pos 1) (pos i) in
    let u = +ℤ_parts a (pos (suc i)) in
    eq_of_parts ((a +ℤ pos 1) +ℤ pos i) (a +ℤ pos (suc i)) (omega arith)

pub run-append :
    (d : Bool) (m : ℕ) (a : ℤ) (k n : ℕ)
    → k ≡ m + n
    → run d a k ≡ run d a m ++ run d (further d a m) n
run-append d zero a k n e = ap (run d a) (same k n e) ∙ ap (λ x. run d x n) (sym (further_zero d a))
  where
    same : (k n : ℕ) → k ≡ 0 + n → k ≡ n
    same k n e = omega (arith, e)
run-append d (suc m) a zero n e = absurd (omega (arith, e))
run-append d (suc m) a (suc k) n e =
    ap (λ t. a ∷ t)
      (run-append d m (if d then a -ℤ pos 1 else a +ℤ pos 1) k n (omega (arith, e))
        ∙ ap (λ x. run d (if d then a -ℤ pos 1 else a +ℤ pos 1) m ++ run d x n) (further-suc d a m))

pub addr_sub_lem :
    (base : ℤ) (delta : ℕ)
    → InInt64 base
    → int64_min ≤ℤ base -ℤ pos delta
    → addr_sub base delta ≡ base -ℤ pos delta
unfolding addr_sub ◌-ℤ◌
addr_sub_lem (pos a) delta p h = ground arith
addr_sub_lem (negsuc a) delta p h = ground arith

-- The distance of two addresses that are `k` apart.
pub distance_of : (a b : ℤ) (k : ℕ) → InInt64 a → InInt64 b → b ≡ a +ℤ pos k → addr_distance a b ≡ k
distance_of a b k p q e =
    let sum = +ℤ_parts a (pos k) in
    let low = ap pos_part e in
    let high = ap neg_part e in
    let d = addr_distance_lem a b p q (omega (arith, sum, low, high)) in
    let difference = -ℤ_parts b a in
    let left = ap pos_part d in
    let right = ap neg_part d in omega (arith, sum, low, high, difference, left, right)

-- The end of a region from a cursor.
pub reach : (a b : ℤ) → InInt64 a → InInt64 b → a ≤ℤ b → b ≡ a +ℤ pos (addr_distance a b)
reach a b p q h =
    let d = addr_distance_lem a b p q h in
    let difference = -ℤ_parts b a in
    let left = ap pos_part d in
    let right = ap neg_part d in
    let sum = +ℤ_parts a (pos (addr_distance a b)) in
    eq_of_parts b (a +ℤ pos (addr_distance a b)) (omega (arith, difference, left, right, sum))

-- An address on the way.
pub between :
    (a b : ℤ) (k : ℕ)
    → InInt64 a
    → InInt64 b
    → a ≤ℤ b
    → k ≤ addr_distance a b
    → InInt64 (a +ℤ pos k) × (a ≤ℤ a +ℤ pos k) × (a +ℤ pos k ≤ℤ b)
between a b k p q h l =
    let e = reach a b p q h in
    let low = ap pos_part e in
    let high = ap neg_part e in
    let all = +ℤ_parts a (pos (addr_distance a b)) in
    let part = +ℤ_parts a (pos k) in
    (
      (omega (arith, part, p.0), omega (arith, low, high, all, part, l, q.1)),
      omega (arith, part),
      omega (arith, low, high, all, part, l),
    )

pub plus_one : (a : ℤ) (k : ℕ) → (a +ℤ pos k) +ℤ pos 1 ≡ a +ℤ pos (suc k)
plus_one a k =
    let s = +ℤ_parts a (pos k) in
    let t = +ℤ_parts (a +ℤ pos k) (pos 1) in
    let u = +ℤ_parts a (pos (suc k)) in
    eq_of_parts ((a +ℤ pos k) +ℤ pos 1) (a +ℤ pos (suc k)) (omega arith)

pub up_less :
    (a b : ℤ) (k : ℕ)
    → InInt64 a
    → InInt64 b
    → a ≤ℤ b
    → k ≤ addr_distance a b
    → eqb_ℤ (a +ℤ pos k) b ≡ false
    → k < addr_distance a b
up_less a b k p q h l e =
    let r = reach a b p q h in
    let low = ap pos_part r in
    let high = ap neg_part r in
    let all = +ℤ_parts a (pos (addr_distance a b)) in
    let part = +ℤ_parts a (pos k) in ground (arith, low, high, all, part, l, e)

pub left_over :
    (a b : ℤ) (k : ℕ)
    → InInt64 a
    → InInt64 b
    → a ≤ℤ b
    → k ≤ addr_distance a b
    → suc (addr_distance a b) ≡ k + suc (addr_distance (a +ℤ pos k) b)
left_over a b k p q h l =
    let m = between a b k p q h l in
    let r = reach a b p q h in
    let t = reach (a +ℤ pos k) b m.0 q m.2 in
    let low = ap pos_part r in
    let high = ap neg_part r in
    let low' = ap pos_part t in
    let high' = ap neg_part t in
    let all = +ℤ_parts a (pos (addr_distance a b)) in
    let part = +ℤ_parts a (pos k) in
    let rest = +ℤ_parts (a +ℤ pos k) (pos (addr_distance (a +ℤ pos k) b)) in
    omega (arith, low, high, low', high', all, part, rest)

pub minus_plus : (b : ℤ) (k : ℕ) → b ≡ (b -ℤ pos k) +ℤ pos k
minus_plus b k =
    let s = -ℤ_parts b (pos k) in
    let t = +ℤ_parts (b -ℤ pos k) (pos k) in eq_of_parts b ((b -ℤ pos k) +ℤ pos k) (omega arith)

pub minus_one : (b : ℤ) (k : ℕ) → (b -ℤ pos k) -ℤ pos 1 ≡ b -ℤ pos (suc k)
minus_one b k =
    let s = -ℤ_parts b (pos k) in
    let t = -ℤ_parts (b -ℤ pos k) (pos 1) in
    let u = -ℤ_parts b (pos (suc k)) in
    eq_of_parts ((b -ℤ pos k) -ℤ pos 1) (b -ℤ pos (suc k)) (omega arith)

-- An address on the way down.
pub between_down :
    (a b : ℤ) (k : ℕ)
    → InInt64 a
    → InInt64 b
    → a ≤ℤ b
    → k ≤ addr_distance a b
    → InInt64 (b -ℤ pos k) × (a ≤ℤ b -ℤ pos k) × (b -ℤ pos k ≤ℤ b)
between_down a b k p q h l =
    let e = reach a b p q h in
    let low = ap pos_part e in
    let high = ap neg_part e in
    let all = +ℤ_parts a (pos (addr_distance a b)) in
    let part = -ℤ_parts b (pos k) in
    let above : a ≤ℤ b -ℤ pos k = omega (arith, low, high, all, part, l) in
    ((omega (arith, above, p.0), omega (arith, part, q.1)), above, omega (arith, part))

pub down_less :
    (a b : ℤ) (k : ℕ)
    → InInt64 a
    → InInt64 b
    → a ≤ℤ b
    → k ≤ addr_distance a b
    → eqb_ℤ (b -ℤ pos k) a ≡ false
    → k < addr_distance a b
down_less a b k p q h l e =
    let r = reach a b p q h in
    let low = ap pos_part r in
    let high = ap neg_part r in
    let all = +ℤ_parts a (pos (addr_distance a b)) in
    let part = -ℤ_parts b (pos k) in ground (arith, low, high, all, part, l, e)

pub left_below :
    (a b : ℤ) (k : ℕ)
    → InInt64 a
    → InInt64 b
    → a ≤ℤ b
    → k ≤ addr_distance a b
    → suc (addr_distance a b) ≡ k + suc (addr_distance a (b -ℤ pos k))
left_below a b k p q h l =
    let m = between_down a b k p q h l in
    let r = reach a b p q h in
    let t = reach a (b -ℤ pos k) p m.0 m.1 in
    let low = ap pos_part r in
    let high = ap neg_part r in
    let low' = ap pos_part t in
    let high' = ap neg_part t in
    let all = +ℤ_parts a (pos (addr_distance a b)) in
    let part = -ℤ_parts b (pos k) in
    let rest = +ℤ_parts a (pos (addr_distance a (b -ℤ pos k))) in
    omega (arith, low, high, low', high', all, part, rest)
