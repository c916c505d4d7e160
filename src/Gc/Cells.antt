-- ===== src/Gc/Cells.antt =====
-- Memory cell by cell: what is read after a write, and the references that the nodes hold.
use cpam.Base.{
  ℕ, zero, suc, ◌+◌, ◌≤◌, ◌≡◌, refl, ap, false, Option, none, some, [], ◌∷◌, ◌++◌, ◌==◌, length,
  if◌then◌else◌, arith,
}
use cpam.Gc.{Ptr, Cell, regular_node, compressed_node, Counted, Heap, load, store, live}

-- How many times a pointer is the address q: 1 or 0.
abbrev pub points : Ptr → ℕ → ℕ
points none q = 0
points (some p) q = if p == q then 1 else 0

module _ {ℓ} {E : Type ℓ} where
  -- The references to q that a node holds.
  abbrev pub held_by : Cell E → ℕ → ℕ
  held_by (regular_node s l e r) q = points l q + points r q
  held_by (compressed_node es) q = 0

  abbrev pub held_at : Option (Counted E) → ℕ → ℕ
  held_at none q = 0
  held_at (some (r, c)) q = held_by c q

  abbrev pub held_in : Heap E → ℕ → ℕ
  held_in [] q = 0
  held_in (c ∷ h) q = held_at c q + held_in h q

  abbrev pub count_of : Option (Counted E) → ℕ
  count_of none = 0
  count_of (some (r, c)) = r

  abbrev pub used : Option (Counted E) → ℕ
  used none = 0
  used (some c) = 1

  pub load-store_same :
      (h : Heap E) (p : ℕ) (c' : Option (Counted E)) {d : Counted E}
      → load h p ≡ some d
      → load (store h p c') p ≡ c'
  load-store_same [] p c' h = cc
  load-store_same (x ∷ xs) zero c' h = refl
  load-store_same (x ∷ xs) (suc p) c' h = load-store_same xs p c' h

  pub load-store_other :
      (h : Heap E) (p q : ℕ) (c' : Option (Counted E))
      → (p == q) ≡ false
      → load (store h p c') q ≡ load h q
  load-store_other [] p q c' h = refl
  load-store_other (x ∷ xs) zero zero c' h = absurd (ground arith)
  load-store_other (x ∷ xs) zero (suc q) c' h = refl
  load-store_other (x ∷ xs) (suc p) zero c' h = refl
  load-store_other (x ∷ xs) (suc p) (suc q) c' h = load-store_other xs p q c' (ground arith)

  -- A write exchanges the references that the old node holds for those of the new.
  pub held_in-store :
      (h : Heap E) (p q : ℕ) (c' : Option (Counted E)) {d : Counted E}
      → load h p ≡ some d
      → held_in (store h p c') q + held_by (d.1) q ≡ held_in h q + held_at c' q
  held_in-store [] p q c' h = cc
  held_in-store (x ∷ xs) zero q c' {d = d} h =
      let old : held_at x q ≡ held_by (d.1) q = ap (λ c. held_at c q) h in omega arith
  held_in-store (x ∷ xs) (suc p) q c' h = omega (arith, held_in-store xs p q c' h)

  pub live-store :
      (h : Heap E) (p : ℕ) (c' : Option (Counted E)) {d : Counted E}
      → load h p ≡ some d
      → live (store h p c') + 1 ≡ live h + used c'
  live-store [] p c' h = cc
  live-store (none ∷ xs) zero c' h = cc
  live-store (some x ∷ xs) zero none h = omega arith
  live-store (some x ∷ xs) zero (some y) h = omega arith
  live-store (none ∷ xs) (suc p) c' h = live-store xs p c' h
  live-store (some x ∷ xs) (suc p) c' h = omega (arith, live-store xs p c' h)

  pub length-store :
      (h : Heap E) (p : ℕ) (c' : Option (Counted E)) → length (store h p c') ≡ length h
  length-store [] p c' = refl
  length-store (x ∷ xs) zero c' = refl
  length-store (x ∷ xs) (suc p) c' = ap suc (length-store xs p c')

  -- The memory behind the heap is new.
  pub load-past_end : (h : Heap E) (q : ℕ) → length h ≤ q → load h q ≡ none
  load-past_end [] q h = refl
  load-past_end (x ∷ xs) zero h = absurd (omega arith)
  load-past_end (x ∷ xs) (suc q) h = load-past_end xs q (omega arith)

  pub load-new : (h : Heap E) (c : Counted E) → load (h ++ some c ∷ []) (length h) ≡ some c
  load-new [] c = refl
  load-new (x ∷ xs) c = load-new xs c

  pub load-old :
      (h : Heap E) (c : Counted E) (q : ℕ)
      → (length h == q) ≡ false
      → load (h ++ some c ∷ []) q ≡ load h q
  load-old [] c zero h = absurd (ground arith)
  load-old [] c (suc q) h = refl
  load-old (x ∷ xs) c zero h = refl
  load-old (x ∷ xs) c (suc q) h = load-old xs c q (ground arith)

  pub held_in-new :
      (h : Heap E) (r : ℕ) (c : Cell E) (q : ℕ)
      → held_in (h ++ some (r, c) ∷ []) q ≡ held_in h q + held_by c q
  held_in-new [] r c q = omega arith
  held_in-new (x ∷ xs) r c q = omega (arith, held_in-new xs r c q)

  -- What a node in use holds is among what all hold.
  pub held_by-load :
      (h : Heap E) (p q : ℕ) {d : Counted E} → load h p ≡ some d → held_by (d.1) q ≤ held_in h q
  held_by-load [] p q h = cc
  held_by-load (x ∷ xs) zero q {d = d} h =
      let same : held_at x q ≡ held_by (d.1) q = ap (λ c. held_at c q) h in omega arith
  held_by-load (x ∷ xs) (suc p) q h = omega (arith, held_by-load xs p q h)
