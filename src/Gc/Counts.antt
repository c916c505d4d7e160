-- ===== src/Gc/Counts.antt =====
-- Each count is the number of references to its node: what the callers own, and what other nodes hold.
use cpam.Base.{
  ℕ, zero, suc, ◌+◌, ◌-◌, ◌*◌, ◌%◌, ◌<◌, ◌≤◌, ◌≡◌, refl, sym, ap, ◌∙◌, Bool, true, false, Option,
  none, some, ◌==◌, if-split, arith, Bool-cases, Option-cases, inl, inr,
}
use mathlib.Core.Option.{some-injective}
use cpam.Gc.{
  Ptr, Cell, regular_node, compressed_node, Counted, Heap, low_bits, load, store, live,
  decrement_cell, with_children, decrement_recursive,
}
use cpam.Gc.Cells.{
  points, held_by, held_at, held_in, count_of, load-store_same, load-store_other, held_in-store,
  live-store,
}

module _ {ℓ} {E : Type ℓ} where
  -- `owned q` is how many references to q the callers own. No node in use has count 0, so that no memory
  -- leaks, and no reference is to freed memory, whose count is taken as 0.
  pub record IsCounted (owned : ℕ → ℕ) (h : Heap E) : Type ℓ where
    pub counted : (q : ℕ) → count_of (load h q) ≡ owned q + held_in h q
    pub in_use : (q r : ℕ) (c : Cell E) → load h q ≡ some (r, c) → (0 < r) × (r < low_bits)

  pub same_place : (h : Heap E) (p q : ℕ) → (p == q) ≡ true → load h q ≡ load h p
  same_place h p q same = ap (load h) (ground arith)

  -- A write that changes a count and the references just as much.
  pub IsCounted-store :
      (owned owned' : ℕ → ℕ) (h : Heap E) (p : ℕ) (c' : Option (Counted E)) {d : Counted E}
      → load h p ≡ some d
      → ((q : ℕ)
          → points (some p) q * count_of c' + owned q + held_by (d.1) q
            ≡ points (some p) q * d.0 + owned' q + held_at c' q)
      → ((r : ℕ) (c : Cell E) → c' ≡ some (r, c) → (0 < r) × (r < low_bits))
      → IsCounted owned h
      → IsCounted owned' (store h p c')
  IsCounted-store owned owned' h p c' {d = d} found balance valid good =
      let at = load-store_same h p c' found in
      record {
        counted = λ q.
            let held = held_in-store h p q c' found in
            elim (Bool-cases (p == q)) [
              | inl same ↦
                  let now : load (store h p c') q ≡ c' = same_place (store h p c') p q same ∙ at in
                  let before : d.0 ≡ owned q + held_in h q =
                    sym (ap count_of (same_place h p q same ∙ found)) ∙ good.counted q in
                  let kept : 1 * count_of c' + owned q + held_by (d.1) q
                      ≡ 1 * d.0 + owned' q + held_at c' q =
                    rw same at (balance q) in
                  rw now (omega (arith, held, before, kept))
              | inr other ↦
                  let kept : 0 * count_of c' + owned q + held_by (d.1) q
                      ≡ 0 * d.0 + owned' q + held_at c' q =
                    rw other at (balance q) in
                  rw (load-store_other h p q c' other) (omega (arith, held, good.counted q, kept))
            ];
        in_use = λ q r c now. elim (Bool-cases (p == q)) [
          | inl same ↦ valid r c (sym (same_place (store h p c') p q same ∙ at) ∙ now)
          | inr other ↦ good.in_use q r c (sym (load-store_other h p q c' other) ∙ now)
        ];
      }

  -- What a node in use after some steps holds, it held before them.
  abbrev pub IsKept : Heap E → Heap E → Type ℓ
  IsKept h h' =
      (q r : ℕ) (c : Cell E) → load h' q ≡ some (r, c) → (r' : ℕ) × (load h q ≡ some (r', c))

  pub IsKept-trans : (h h1 h2 : Heap E) → IsKept h h1 → IsKept h1 h2 → IsKept h h2
  IsKept-trans h h1 h2 a b q r c now = let (r1, between) = b q r c now in a q r1 c between

  pub IsKept-store :
      (h : Heap E) (p r : ℕ) (c : Cell E) (c' : Option (Counted E))
      → load h p ≡ some (r, c)
      → ((r' : ℕ) (d : Cell E) → c' ≡ some (r', d) → d ≡ c)
      → IsKept h (store h p c')
  IsKept-store h p r c c' found same_cell q r' d now = elim (Bool-cases (p == q)) [
    | inl same ↦
        let stored : c' ≡ some (r', d) =
          sym (same_place (store h p c') p q same ∙ load-store_same h p c' found) ∙ now in
        (r, same_place h p q same ∙ found ∙ ap (λ x. some (r, x)) (sym (same_cell r' d stored)))
    | inr other ↦ (r', sym (load-store_other h p q c' other) ∙ now)
  ]

  -- What one decrement leaves: a freed node's references are the caller's.
  abbrev pub AfterOne : (ℕ → ℕ) → Heap E → Cell E → Bool × Heap E → Type ℓ
  AfterOne owned h c (true, h') =
      IsCounted (λ q. held_by c q + owned q) h' × (suc (live h') ≡ live h) × IsKept h h'
  AfterOne owned h c (false, h') = IsCounted owned h' × (live h' ≡ live h) × IsKept h h'

  pub decrement_cell-AfterOne :
      (owned : ℕ → ℕ) (h : Heap E) (p r : ℕ) (c : Cell E)
      → load h p ≡ some (r, c)
      → IsCounted (λ q. points (some p) q + owned q) h
      → AfterOne owned h c (decrement_cell h p r c)
  decrement_cell-AfterOne owned h p r c found good =
      let (positive, in_range) = good.in_use p r c found in
      if-split (AfterOne owned h c) (r == 1)
        (λ last.
          let one : r ≡ 1 = ground arith in
          (
            IsCounted-store _ _ h p none found (λ q. rw one (omega arith)) (λ r' d e. cc) good,
            omega (arith, live-store h p none found),
            IsKept-store h p r c none found (λ r' d e. cc),
          ))
        λ others.
          let balanced : (q : ℕ)
              → points (some p) q * (r - 1) + (points (some p) q + owned q) + held_by c q
                ≡ points (some p) q * r + owned q + held_by c q =
            λ q. elim (Bool-cases (p == q)) [
              | inl same ↦ rw same (omega arith)
              | inr other ↦ rw other (omega arith)
            ] in
          let below : (r + low_bits - 1) % low_bits ≡ r - 1 = omega arith in
          (
            IsCounted-store _ _ h p _ found (λ q. rw below (balanced q))
                (λ r' d e.
                  let same = ap (λ x. x.0) (some-injective _ _ e) in (ground arith, omega arith))
                good,
            omega (arith, live-store h p (some ((r + low_bits - 1) % low_bits, c)) found),
            IsKept-store h p r c _ found (λ r' d e. sym (ap (λ x. x.1) (some-injective _ _ e))),
          )

  pub IsCounted-cong :
      {owned owned' : ℕ → ℕ} (h : Heap E)
      → ((q : ℕ) → owned q ≡ owned' q)
      → IsCounted owned h
      → IsCounted owned' h
  IsCounted-cong h same good = record {
    counted = λ q. good.counted q ∙ ap (λ n. n + held_in h q) (same q);
    in_use = good.in_use;
  }

  -- How a node is given up: what is left is counted right without it, and no more is in use than before.
  pub record IsReleased (owned : ℕ → ℕ) (h : Heap E) (result : Option (Heap E)) : Type ℓ where
    pub left : Heap E
    pub returned : result ≡ some left
    pub good : IsCounted owned left
    pub fewer : live left ≤ live h
    pub kept : IsKept h left

  -- A reference that is owned is to a node in use.
  pub load-owned :
      (owned : ℕ → ℕ) (h : Heap E) (p : ℕ)
      → IsCounted (λ q. points (some p) q + owned q) h
      → (r : ℕ) × (c : Cell E) × (load h p ≡ some (r, c))
  load-owned owned h p good = elim (Option-cases (load h p)) [
    | inl freed ↦
        let zero_count : 0 ≡ points (some p) p + owned p + held_in h p =
          rw freed at (good.counted p) in
        absurd (ground arith)
    | inr ((r, c), found) ↦ (r, c, found)
  ]

  -- After the count of the node itself, where the rest is given up rightly in a smaller heap.
  with_children-IsReleased :
      (bound : ℕ) (recur : Heap E → Ptr → Option (Heap E))
      → ((owned : ℕ → ℕ) (h : Heap E) (t : Ptr)
          → live h < bound
          → IsCounted (λ q. points t q + owned q) h
          → IsReleased owned h (recur h t))
      → (owned : ℕ → ℕ) (h : Heap E) (c : Cell E) (one : Bool × Heap E) → live h < suc bound
      → AfterOne owned h c one
      → IsReleased owned h (with_children recur c one)
  with_children-IsReleased bound recur each owned h c (false, h1) enough (good, same, kept) =
      record { left = h1; returned = refl; good = good; fewer = omega arith; kept = kept }
  with_children-IsReleased bound recur each owned h (compressed_node es) (true, h1) enough
        (good, less, kept) =
      record {
        left = h1;
        returned = refl;
        good = IsCounted-cong h1 (λ q. omega arith) good;
        fewer = omega arith;
        kept = kept;
      }
  with_children-IsReleased bound recur each owned h (regular_node s lsub e rsub) (true, h1) enough
        (good, less, kept) =
      let on_left =
        each (λ q. points rsub q + owned q) h1 lsub (omega arith)
          (IsCounted-cong h1 (λ q. omega arith) good) in
      let on_right = each owned (on_left.left) rsub (omega (arith, on_left.fewer)) (on_left.good) in
      record {
        left = on_right.left;
        returned = rw (with_children, on_left.returned) (on_right.returned);
        good = on_right.good;
        fewer = omega (arith, on_left.fewer, on_right.fewer);
        kept =
            IsKept-trans h h1 (on_right.left) kept
              (IsKept-trans h1 (on_left.left) (on_right.left) (on_left.kept) (on_right.kept));
      }

  -- With one more fuel than nodes in use, and with counts that are the numbers of references to
  -- their nodes, the caller's reference t and others among them: `decrement_recursive` of t reads
  -- no freed memory and returns; then the counts are the numbers of references without t, each node
  -- in use has a reference and each reference is to a node in use; no node in use has other
  -- contents than before, and there are no more of them.
  pub decrement_recursive-IsReleased :
      (fuel : ℕ) (owned : ℕ → ℕ) (h : Heap E) (t : Ptr)
      → live h < fuel
      → IsCounted (λ q. points t q + owned q) h
      → IsReleased owned h (decrement_recursive fuel h t)
  unfolding decrement_recursive
  decrement_recursive-IsReleased zero owned h t enough good = absurd (omega arith)
  decrement_recursive-IsReleased (suc fuel) owned h none enough good = record {
    left = h;
    returned = refl;
    good = IsCounted-cong h (λ q. omega arith) good;
    fewer = omega arith;
    kept = λ q r c now. (r, now);
  }
  decrement_recursive-IsReleased (suc fuel) owned h (some p) enough good =
      let (r, c, found) = load-owned owned h p good in
      rw (decrement_recursive, found)
        (with_children-IsReleased fuel (decrement_recursive fuel)
          (decrement_recursive-IsReleased fuel) owned h c (decrement_cell h p r c) enough
          (decrement_cell-AfterOne owned h p r c found good))
