-- ===== src/Gc/Copies.antt =====
-- A copy is a node of its own: the only reference to it is the caller's.
use cpam.Base.{
  ◌*◌, leb, true, ℕ, ◌+◌, ◌%◌, ◌<◌, ◌≤◌, ◌≡◌, refl, sym, ap, subst, ◌∙◌, Option, none, some, [],
  ◌∷◌, ◌++◌, ◌==◌, length, arith, Bool-cases, Option-cases, inl, inr,
}
use mathlib.Core.Option.{some-injective}
use native.Mathlib.Nat.{mod-eq_of_lt}
use cpam.Gc.{
  Ptr, Cell, regular_node, compressed_node, Counted, Heap, low_bits, load, store, increment,
  copy_cell, copy,
}
use cpam.Gc.Cells.{
  points, held_by, held_in, count_of, load-store_same, load-store_other, length-store,
  load-past_end, load-new, load-old, held_in-new, held_by-load,
}
use cpam.Gc.Counts.{IsCounted, IsCounted-store, IsCounted-cong, same_place}

module _ {ℓ} {E : Type ℓ} where
  -- Each node in use is there still, with as many references and at most `more` new ones.
  abbrev pub IsGrown : ℕ → Heap E → Heap E → Type ℓ
  IsGrown more h h' =
      (q r : ℕ) (c : Cell E)
      → load h q ≡ some (r, c)
      → (r' : ℕ) × (r ≤ r') × (r' ≤ r + more) × (load h' q ≡ some (r', c))

  IsGrown-refl : (more : ℕ) (h : Heap E) → IsGrown more h h
  IsGrown-refl more h q r c before = (r, omega arith, omega arith, before)

  pub record IsIncremented (owned : ℕ → ℕ) (h : Heap E) (t : Ptr) (result : Option (Heap E))
      : Type ℓ where
    pub after : Heap E
    pub returned : result ≡ some after
    pub good : IsCounted (λ q. points t q + owned q) after
    pub grown : IsGrown 1 h after
    pub same_length : length after ≡ length h

  -- No count may reach the top bit.
  increment-IsIncremented :
      (owned : ℕ → ℕ) (h : Heap E) (p r : ℕ) (c : Cell E)
      → load h p ≡ some (r, c)
      → r + 1 < low_bits
      → IsCounted owned h
      → IsIncremented owned h (some p) (increment h (some p) 1)
  unfolding increment
  increment-IsIncremented owned h p r c found room good =
      let next : (r + 1) % low_bits ≡ r + 1 = mod-eq_of_lt room in
      let more : Option (Counted E) = some (r + 1, c) in
      record {
        after = store h p more;
        returned = rw (increment, found, next) refl;
        good =
            IsCounted-store owned _ h p more found
              (λ q. elim (Bool-cases (p == q)) [
                | inl same ↦ rw same (omega arith)
                | inr other ↦ rw other (omega arith)
              ])
              (λ r' d e.
                let same = ap (λ x. x.0) (some-injective _ _ e) in (omega arith, omega arith))
              good;
        grown = λ q r' d before. elim (Bool-cases (p == q)) [
          | inl same ↦
              let old = some-injective _ _ (sym found ∙ sym (same_place h p q same) ∙ before) in
              let old_count : r ≡ r' = ap (λ x. x.0) old in
              (
                r + 1,
                omega arith,
                omega arith,
                same_place (store h p more) p q same
                    ∙ load-store_same h p more found
                    ∙ ap (λ x. some (r + 1, x)) (ap (λ x. x.1) old),
              )
          | inr other ↦ (r', omega arith, omega arith, load-store_other h p q more other ∙ before)
        ];
        same_length = length-store h p more;
      }

  -- A pointer to NULL, or to a node in use whose count may grow by one.
  abbrev pub HasRoom : Heap E → Ptr → Type ℓ
  HasRoom h none = Unit
  HasRoom h (some p) = (r : ℕ) × (c : Cell E) × (load h p ≡ some (r, c)) × (r + 1 < low_bits)

  pub increment_any :
      (owned : ℕ → ℕ) (h : Heap E) (t : Ptr)
      → HasRoom h t
      → IsCounted owned h
      → IsIncremented owned h t (increment h t 1)
  unfolding increment
  increment_any owned h none room good = record {
    after = h;
    returned = refl;
    good = IsCounted-cong h (λ q. omega arith) good;
    grown = λ q r c before. (r, omega arith, omega arith, before);
    same_length = refl;
  }
  increment_any owned h (some p) (r, c, found, room) good =
      increment-IsIncremented owned h p r c found room good

  -- A new node that holds references the caller owned.
  alloc-IsCounted :
      (owned : ℕ → ℕ) (h : Heap E) (c : Cell E)
      → IsCounted (λ q. held_by c q + owned q) h
      → IsCounted (λ q. points (some (length h)) q + owned q) (h ++ some (1, c) ∷ [])
  alloc-IsCounted owned h c good = record {
    counted = λ q. elim (Bool-cases (length h == q)) [
      | inl same ↦
          let here : length h ≡ q = ground arith in
          let nothing : 0 ≡ held_by c q + owned q + held_in h q =
            sym (ap count_of (load-past_end h q (omega arith))) ∙ good.counted q in
          let now : load (h ++ some (1, c) ∷ []) q ≡ some (1, c) =
            ap (load (h ++ some (1, c) ∷ [])) (sym here) ∙ load-new h (1, c) in
          rw (now, same) (omega (arith, nothing, held_in-new h 1 c q))
      | inr other ↦
          rw (load-old h (1, c) q other, other) (omega (arith, good.counted q, held_in-new h 1 c q))
    ];
    in_use = λ q r d now. elim (Bool-cases (length h == q)) [
      | inl same ↦
          let here : length h ≡ q = ground arith in
          let one : 1 ≡ r =
            ap (λ x. x.0)
              (some-injective _ _
                (sym (load-new h (1, c)) ∙ ap (load (h ++ some (1, c) ∷ [])) here ∙ now)) in
          (omega arith, omega arith)
      | inr other ↦ good.in_use q r d (sym (load-old h (1, c) q other) ∙ now)
    ];
  }

  -- The copy of a node in use: one owned reference to it, and nothing else changed but counts.
  pub record IsCopied (owned : ℕ → ℕ) (h : Heap E) (c : Cell E) (result : Option (Heap E × Ptr))
      : Type ℓ where
    pub after : Heap E
    pub returned : result ≡ some (after, some (length h))
    pub good : IsCounted (λ q. points (some (length h)) q + owned q) after
    pub fresh : load after (length h) ≡ some (1, c)
    pub grown : IsGrown 2 h after

  IsGrown-alloc :
      (h h2 : Heap E) (c : Cell E)
      → length h2 ≡ length h
      → IsGrown 2 h h2
      → IsGrown 2 h (h2 ++ some (1, c) ∷ [])
  IsGrown-alloc h h2 c same grown q r d before = elim (Bool-cases (length h2 == q)) [
    | inl here ↦ let past : load h q ≡ none = load-past_end h q (ground arith) in absurd (cc)
    | inr other ↦
        let (r', least, most, now) = grown q r d before in
        (r', least, most, load-old h2 (1, c) q other ∙ now)
  ]

  -- Every node in use may get two more references.
  abbrev pub IsRoomy : Heap E → Type ℓ
  IsRoomy h = (q r : ℕ) (c : Cell E) → load h q ≡ some (r, c) → r + 2 < low_bits

  -- What a node in use points to is in use.
  child-HasRoom :
      (owned : ℕ → ℕ) (h h' : Heap E) (t : Ptr)
      → IsCounted owned h
      → IsRoomy h
      → IsGrown 1 h h'
      → ((q : ℕ) → points t q ≤ held_in h q)
      → HasRoom h' t
  child-HasRoom owned h h' none good roomy grown held = tt
  child-HasRoom owned h h' (some p) good roomy grown held = elim (Option-cases (load h p)) [
    | inl freed ↦
        let nothing : 0 ≡ owned p + held_in h p = rw freed at (good.counted p) in
        let here : points (some p) p ≤ held_in h p = held p in absurd (ground arith)
    | inr ((r, c), found) ↦
        let room = roomy p r c found in
        let (r', least, most, now) = grown p r c found in (r', c, now, omega arith)
  ]

  -- A node but for the size of a regular one.
  abbrev pub with_size : ℕ → Cell E → Cell E
  with_size n (regular_node s l e r) = regular_node n l e r
  with_size n (compressed_node es) = compressed_node es

  -- A block has at most 2 * B entries.
  abbrev pub IsInLimit : ℕ → Cell E → Type 0
  IsInLimit B (regular_node s l e r) = Unit
  IsInLimit B (compressed_node es) = length es ≤ 2 * B

  copy_cell-IsCopied :
      (B unset : ℕ) (owned : ℕ → ℕ) (h : Heap E) (t r : ℕ) (c : Cell E)
      → IsInLimit B c
      → load h t ≡ some (r, c)
      → IsRoomy h
      → IsCounted owned h
      → IsCopied owned h (with_size unset c) (copy_cell B unset h c)
  copy_cell-IsCopied B unset owned h t r (compressed_node es) fits found roomy good =
      let in_limit : leb (length es) (2 * B) ≡ true = ground arith in
      rw in_limit record {
        after = h ++ some (1, compressed_node es) ∷ [];
        returned = refl;
        good =
            alloc-IsCounted owned h (compressed_node es) (IsCounted-cong h (λ q. omega arith) good);
        fresh = load-new h (1, compressed_node es);
        grown = IsGrown-alloc h h (compressed_node es) refl (IsGrown-refl 2 h);
      }
  copy_cell-IsCopied B unset owned h t r (regular_node s lc e rc) fits found roomy good =
      let c = regular_node unset lc e rc in
      let held = λ (q : ℕ). held_by-load h t q found in
      let left_room =
        child-HasRoom owned h h lc good roomy (IsGrown-refl 1 h) (λ q. omega (arith, held q)) in
      let one = increment_any owned h lc left_room good in
      let right_room =
        child-HasRoom owned h (one.after) rc good roomy (one.grown) (λ q. omega (arith, held q)) in
      let two = increment_any (λ q. points lc q + owned q) (one.after) rc right_room (one.good) in
      let same_length : length (two.after) ≡ length h = two.same_length ∙ one.same_length in
      record {
        after = two.after ++ some (1, c) ∷ [];
        returned =
            rw (copy_cell, one.returned, two.returned)
              (ap (λ n. some (two.after ++ some (1, c) ∷ [], some n)) same_length);
        good =
            subst
              (λ n. IsCounted (λ q. points (some n) q + owned q) (two.after ++ some (1, c) ∷ []))
              same_length
              (alloc-IsCounted owned (two.after) c
                (IsCounted-cong (two.after) (λ q. omega arith) (two.good)));
        fresh =
            ap (load (two.after ++ some (1, c) ∷ [])) (sym same_length)
            ∙ load-new (two.after) (1, c);
        grown = IsGrown-alloc h (two.after) c same_length λ q s d before.
            let (s1, least1, most1, now1) = one.grown q s d before in
            let (s2, least2, most2, now2) = two.grown q s1 d now1 in
            (s2, omega arith, omega arith, now2);
      }

  pub copy-IsCopied :
      (B unset : ℕ) (owned : ℕ → ℕ) (h : Heap E) (t r : ℕ) (c : Cell E)
      → IsInLimit B c
      → load h t ≡ some (r, c)
      → IsRoomy h
      → IsCounted owned h
      → IsCopied owned h (with_size unset c) (copy B unset h t)
  unfolding copy
  copy-IsCopied B unset owned h t r c fits found roomy good =
      rw (copy, found) (copy_cell-IsCopied B unset owned h t r c fits found roomy good)
