-- ===== src/ByteSearch/Scan/Served.antt =====
-- A memory that a source serves: the bytes of a page and the matches in a run of addresses.
use ghidrasql.Prelude.{
  ℕ, zero, suc, ◌+◌, ◌-◌, ◌≤◌, ◌<◌, ℤ, pos, ◌+ℤ◌, +ℤ_parts, eq_of_parts, Bool, true, false, ◌&&◌,
  Option, none, some, List, [], ◌∷◌, ◌++◌, if◌then◌else◌, length, take, drop, ◌≡◌, refl, sym, ap,
  ◌∙◌, arith, inl, inr, Bool-cases, subst,
}
use ghidrasql.ByteSearch.Pattern.{ByteSearchPatternByte, byte_matches}
use ghidrasql.ByteSearch.Scan.{front_matches, find_candidate}

-- The bytes of a memory from an address on.
abbrev pub served : (ℤ → ℕ) → ℤ → ℕ → List ℕ
served mem a zero = []
served mem a (suc n) = mem a ∷ served mem (a +ℤ pos 1) n

-- Whether a memory matches a pattern at an address.
abbrev pub matches_at : (ℤ → ℕ) → List ByteSearchPatternByte → ℤ → Bool
matches_at mem [] a = true
matches_at mem (p ∷ pattern) a = byte_matches p (mem a) && matches_at mem pattern (a +ℤ pos 1)

-- The addresses of the matches among `n` addresses from `a` on.
abbrev pub hits : (ℤ → ℕ) → List ByteSearchPatternByte → ℤ → ℕ → List ℤ
hits mem pattern a zero = []
hits mem pattern a (suc n) =
    if matches_at mem pattern a
    then a ∷ hits mem pattern (a +ℤ pos 1) n
    else hits mem pattern (a +ℤ pos 1) n

pub add_zero : (a : ℤ) → a +ℤ pos 0 ≡ a
add_zero a = let s = +ℤ_parts a (pos 0) in eq_of_parts (a +ℤ pos 0) a (omega arith)

pub add_suc : (a : ℤ) (i : ℕ) → (a +ℤ pos 1) +ℤ pos i ≡ a +ℤ pos (suc i)
add_suc a i =
    let s = +ℤ_parts a (pos 1) in
    let t = +ℤ_parts (a +ℤ pos 1) (pos i) in
    let u = +ℤ_parts a (pos (suc i)) in
    eq_of_parts ((a +ℤ pos 1) +ℤ pos i) (a +ℤ pos (suc i)) (omega arith)

pub add_next : (a : ℤ) (i : ℕ) → (a +ℤ pos i) +ℤ pos 1 ≡ a +ℤ pos (suc i)
add_next a i =
    let s = +ℤ_parts a (pos i) in
    let t = +ℤ_parts (a +ℤ pos i) (pos 1) in
    let u = +ℤ_parts a (pos (suc i)) in
    eq_of_parts ((a +ℤ pos i) +ℤ pos 1) (a +ℤ pos (suc i)) (omega arith)

module _ (mem : ℤ → ℕ) where
  pub length-served : (a : ℤ) (n : ℕ) → length (served mem a n) ≡ n
  length-served a zero = refl
  length-served a (suc n) = ap suc (length-served (a +ℤ pos 1) n)

  pub drop-served :
      (i : ℕ) (a : ℤ) (k n : ℕ) → k ≡ i + n → drop i (served mem a k) ≡ served mem (a +ℤ pos i) n
  drop-served zero a k n e =
      ap (served mem a) (same k n e) ∙ ap (λ x. served mem x n) (sym (add_zero a))
    where
      same : (k n : ℕ) → k ≡ 0 + n → k ≡ n
      same k n e = omega (arith, e)
  drop-served (suc i) a zero n e = absurd (omega (arith, e))
  drop-served (suc i) a (suc k) n e =
      drop-served i (a +ℤ pos 1) k n (omega (arith, e)) ∙ ap (λ x. served mem x n) (add_suc a i)

  pub take-served : (m : ℕ) (a : ℤ) (k : ℕ) → m ≤ k → take m (served mem a k) ≡ served mem a m
  take-served zero a k h = refl
  take-served (suc m) a zero h = absurd (omega (arith, h))
  take-served (suc m) a (suc k) h =
      ap (λ t. mem a ∷ t) (take-served m (a +ℤ pos 1) k (omega (arith, h)))

  pub front_matches-served :
      (pattern : List ByteSearchPatternByte) (a : ℤ) (n : ℕ)
      → length pattern ≤ n
      → front_matches pattern (served mem a n) ≡ matches_at mem pattern a
  unfolding front_matches
  front_matches-served [] a n h = refl
  front_matches-served (p ∷ pattern) a zero h = absurd (omega (arith, h))
  front_matches-served (p ∷ pattern) a (suc n) h =
      ap (λ t. byte_matches p (mem a) && t)
        (front_matches-served pattern (a +ℤ pos 1) n (omega (arith, h)))

  pub hits-append :
      (pattern : List ByteSearchPatternByte) (m : ℕ) (a : ℤ) (k n : ℕ)
      → k ≡ m + n
      → hits mem pattern a k ≡ hits mem pattern a m ++ hits mem pattern (a +ℤ pos m) n
  hits-append pattern zero a k n e =
      ap (hits mem pattern a) (same k n e) ∙ ap (λ x. hits mem pattern x n) (sym (add_zero a))
    where
      same : (k n : ℕ) → k ≡ 0 + n → k ≡ n
      same k n e = omega (arith, e)
  hits-append pattern (suc m) a zero n e = absurd (omega (arith, e))
  hits-append pattern (suc m) a (suc k) n e = rest _ _ _ (matches_at mem pattern a) (
      hits-append pattern m (a +ℤ pos 1) k n (omega (arith, e))
      ∙ ap (λ x. hits mem pattern (a +ℤ pos 1) m ++ hits mem pattern x n) (add_suc a m))
    where
      rest :
          (xs ys zs : List ℤ) (b : Bool)
          → xs ≡ ys ++ zs
          → (if b then a ∷ xs else xs) ≡ (if b then a ∷ ys else ys) ++ zs
      rest xs ys zs true h = ap (λ t. a ∷ t) h
      rest xs ys zs false h = h

-- What a search through `n` candidates from `i` on says of the hits behind `a`.
abbrev pub Finds : (ℤ → ℕ) → List ByteSearchPatternByte → ℤ → ℕ → ℕ → Option ℕ → Type 0
Finds mem pattern a i n none = hits mem pattern (a +ℤ pos i) n ≡ []
Finds mem pattern a i n (some j) =
    (i ≤ j)
    × (j < i + n)
    × (hits mem pattern (a +ℤ pos i) n
        ≡ (a +ℤ pos j) ∷ hits mem pattern (a +ℤ pos (suc j)) (i + n - suc j))

module _ (mem : ℤ → ℕ) (pattern : List ByteSearchPatternByte) (a : ℤ) where
  later :
      (i n : ℕ) (o : Option ℕ)
      → matches_at mem pattern (a +ℤ pos i) ≡ false
      → Finds mem pattern a (suc i) n o
      → Finds mem pattern a i (suc n) o
  later i n none e h = rw e (ap (λ x. hits mem pattern x n) (add_next a i) ∙ h)
  later i n (some j) e h = (
    omega (arith, h.0),
    omega (arith, h.1),
    rw e (
        ap (λ x. hits mem pattern x n) (add_next a i)
        ∙ h.2
        ∙ ap (λ k. (a +ℤ pos j) ∷ hits mem pattern (a +ℤ pos (suc j)) k) (count i n j)),
  )
    where
      count : (i n j : ℕ) → suc i + n - suc j ≡ i + suc n - suc j
      count i n j = omega arith

  pub find_candidate-Finds :
      (n i k : ℕ)
      → k ≡ n + length pattern - 1
      → 1 ≤ length pattern
      → Finds mem pattern a i n (find_candidate pattern (served mem (a +ℤ pos i) k) i n)
  unfolding find_candidate
  find_candidate-Finds zero i k e h = refl
  find_candidate-Finds (suc n) i zero e h = absurd (omega (arith, e, h))
  find_candidate-Finds (suc n) i (suc k) e h =
      elim (Bool-cases (matches_at mem pattern (a +ℤ pos i))) [
        | inl m ↦
            rw (front_matches-served mem pattern (a +ℤ pos i) (suc k) (omega (arith, e, h)), m)
              (
                omega arith,
                omega arith,
                rw m (
                    ap (λ t. (a +ℤ pos i) ∷ t)
                      (ap (λ x. hits mem pattern x n) (add_next a i)
                        ∙ ap (hits mem pattern (a +ℤ pos (suc i))) (all_left i n))),
              )
        | inr m ↦
            rw (front_matches-served mem pattern (a +ℤ pos i) (suc k) (omega (arith, e, h)), m)
              (later i n (find_candidate pattern (served mem ((a +ℤ pos i) +ℤ pos 1) k) (suc i) n) m
                (subst
                  (λ x.
                    Finds mem pattern a (suc i) n
                      (find_candidate pattern (served mem x k) (suc i) n))
                  (sym (add_next a i)) (find_candidate-Finds n (suc i) k (omega (arith, e, h)) h)))
      ]
    where
      all_left : (i n : ℕ) → n ≡ i + suc n - suc i
      all_left i n = omega arith
