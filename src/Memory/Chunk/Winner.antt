-- ===== src/Memory/Chunk/Winner.antt =====
-- The item that a byte is attributed to.
use ghidrasql.Prelude.{
  ℕ, suc, ◌≤◌, ltb, ℤ, Bool, true, false, ◌&&◌, Option, none, some, List, [], ◌∷◌, get_elem?, any,
  ◌≡◌, refl, sym, ap, ◌∙◌, ◌⊎◌, inl, inr, arith, Bool-cases,
}
use ghidrasql.Memory.Items.{MemAttributionItem, priority}
use ghidrasql.Memory.Chunk.{covers_addr, winner}

-- An item holds the address and is of a kind in front of that of another.
abbrev beats : ℤ → MemAttributionItem → MemAttributionItem → Bool
beats addr item c = covers_addr addr c && ltb (priority c.kind) (priority item.kind)

-- An item is one of those of a list that hold the address.
abbrev Candidate : ℤ → List MemAttributionItem → MemAttributionItem → Type 0
Candidate addr active item =
    (covers_addr addr item ≡ true) × (i : ℕ) × (get_elem? active i ≡ some item)

abbrev Best : ℤ → List MemAttributionItem → Option MemAttributionItem → Type 0
Best addr active none = any (covers_addr addr) active ≡ false
Best addr active (some item) = Candidate addr active item × (any (beats addr item) active ≡ false)

-- The walk with a best item in hand.
abbrev Kept : ℤ → List MemAttributionItem → MemAttributionItem → Option MemAttributionItem → Type 0
Kept addr active best o =
    (item : MemAttributionItem) × (o ≡ some item)
    × ((item ≡ best) ⊎ Candidate addr active item)
    × (priority item.kind ≤ priority best.kind)
    × (any (beats addr item) active ≡ false)

further :
    (addr : ℤ) (c item : MemAttributionItem) (active : List MemAttributionItem)
    → Candidate addr active item
    → Candidate addr (c ∷ active) item
further addr c item active h = (h.0, suc h.1, h.2)

winner-Kept :
    (addr : ℤ) (active : List MemAttributionItem) (best : MemAttributionItem)
    → Kept addr active best (winner addr active (some best))
unfolding winner
winner-Kept addr [] best = (best, refl, inl refl, omega arith, refl)
winner-Kept addr (c ∷ active) best = elim (Bool-cases (beats addr best c)) [
  | inl e ↦
      let k = winner-Kept addr active c in
      rw e (
        k.0,
        k.1,
        inr (taken k.0 (ground (arith, e)) k.2),
        ground (arith, e, k.3),
        ground (arith, k.3, k.4),
      )
  | inr e ↦
      let k = winner-Kept addr active best in
      rw e (k.0, k.1, left k.0 k.2, k.3, ground (arith, e, k.3, k.4))
]
  where
    taken :
        (item : MemAttributionItem)
        → covers_addr addr c ≡ true
        → (item ≡ c) ⊎ Candidate addr active item
        → Candidate addr (c ∷ active) item
    taken item h (inl same) = (ap (covers_addr addr) same ∙ h, 0, ap some (sym same))
    taken item h (inr k) = further addr c item active k

    left :
        (item : MemAttributionItem)
        → (item ≡ best) ⊎ Candidate addr active item
        → (item ≡ best) ⊎ Candidate addr (c ∷ active) item
    left item (inl same) = inl same
    left item (inr k) = inr (further addr c item active k)

-- Of the listed items that hold an address, the loop picks one in front of whose kind no other that
-- holds it is: an instruction, then a string, then data. It picks none only where no item holds the address.
winner-Best :
    (addr : ℤ) (active : List MemAttributionItem) → Best addr active (winner addr active none)
unfolding winner
winner-Best addr [] = refl
winner-Best addr (c ∷ active) = elim (Bool-cases (covers_addr addr c)) [
  | inl e ↦
      let k = winner-Kept addr active c in rw (e, k.1) (first k.0 e k.2, ground (arith, k.3, k.4))
  | inr e ↦ rw e (shifted (winner addr active none) e (winner-Best addr active))
]
  where
    first :
        (item : MemAttributionItem)
        → covers_addr addr c ≡ true
        → (item ≡ c) ⊎ Candidate addr active item
        → Candidate addr (c ∷ active) item
    first item h (inl same) = (ap (covers_addr addr) same ∙ h, 0, ap some (sym same))
    first item h (inr k) = further addr c item active k

    shifted :
        (o : Option MemAttributionItem)
        → covers_addr addr c ≡ false
        → Best addr active o
        → Best addr (c ∷ active) o
    shifted none e h = rw e h
    shifted (some item) e h = (further addr c item active h.0, rw e h.1)
