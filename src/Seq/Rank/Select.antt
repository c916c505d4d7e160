-- ===== src/Seq/Rank/Select.antt =====
-- `select` finds the entry at a position.
use cpam.Base.{
  ℕ, zero, suc, ◌+◌, ◌-◌, ◌<◌, ◌≤◌, ◌≡◌, refl, sym, ap, ◌∙◌, none, some, List, [], ◌∷◌, ◌++◌, ltb,
  ◌==◌, length, length-append, get_elem?, arith, Bool-cases, inl, inr, if-split, u32_mod,
}
use cpam.Node.{Node, empty, regular, compressed, size, decode_cond}
use cpam.Node.Iterate.{entries, iterate_cond-entries}
use cpam.Node.Contents.{IsSized, size-IsSized}
use cpam.Seq.Rank.{select_step, select_compressed, select}

module _ {ℓ} {A : Type ℓ} where
  decode_cond-select_step :
      (es : List A) (rank i : ℕ)
      → i ≤ rank
      → (decode_cond (select_step rank) es (i, none)).1.1 ≡ get_elem? es (rank - i)
  unfolding decode_cond
  decode_cond-select_step [] rank i h = refl
  decode_cond-select_step (e ∷ es) rank i h = elim (Bool-cases (i == rank)) [
    | inl here ↦ let z : rank - i ≡ 0 = ground arith in rw (here, z)
    | inr later ↦
        let z : rank - i ≡ suc (rank - (i + 1)) = ground arith in
        rw (later, z) (decode_cond-select_step es rank (i + 1) (ground arith))
  ]

  select_compressed-eq_get_elem? :
      (es : List A) (rank : ℕ) → select_compressed (compressed es) rank ≡ get_elem? es rank
  unfolding select_compressed
  select_compressed-eq_get_elem? es rank =
      ap (λ p. p.1.1) (iterate_cond-entries (select_step rank) (compressed es) (0, none))
      ∙ decode_cond-select_step es rank 0 (omega arith)
      ∙ ap (get_elem? es) (omega arith)

  get_elem?-before :
      (xs ys : List A) (i : ℕ) → i < length xs → get_elem? (xs ++ ys) i ≡ get_elem? xs i
  get_elem?-before [] ys i h = absurd (omega arith)
  get_elem?-before (x ∷ xs) ys zero h = refl
  get_elem?-before (x ∷ xs) ys (suc i) h = get_elem?-before xs ys i (omega arith)

  get_elem?-at : (xs : List A) (x : A) (ys : List A) → get_elem? (xs ++ x ∷ ys) (length xs) ≡ some x
  get_elem?-at [] x ys = refl
  get_elem?-at (y ∷ xs) x ys = get_elem?-at xs x ys

  get_elem?-behind :
      (xs : List A) (x : A) (ys : List A) (i : ℕ)
      → length xs < i
      → get_elem? (xs ++ x ∷ ys) i ≡ get_elem? ys (i - length xs - 1)
  get_elem?-behind [] x ys zero h = absurd (omega arith)
  get_elem?-behind [] x ys (suc i) h = ap (get_elem? ys) (omega arith)
  get_elem?-behind (y ∷ xs) x ys zero h = absurd (omega arith)
  get_elem?-behind (y ∷ xs) x ys (suc i) h =
      get_elem?-behind xs x ys i (omega arith) ∙ ap (get_elem? ys) (omega arith)

  -- In a tree with right size fields and fewer than 2 ^ 32 entries `select` returns the entry at a
  -- position of the list of all entries, and nothing for a position past its end.
  pub select-eq_get_elem? :
      (t : Node A) (rank : ℕ)
      → IsSized t
      → length (entries t) < u32_mod
      → select t rank ≡ get_elem? (entries t) rank
  unfolding select
  select-eq_get_elem? empty rank h small = refl
  select-eq_get_elem? (compressed es) rank h small = select_compressed-eq_get_elem? es rank
  select-eq_get_elem? (regular s l e r) rank h small =
      let len = length-append (entries l) (e ∷ entries r) in
      let on_left = size-IsSized l h.0 in
      let n : size l ≡ length (entries l) = omega (arith, len, on_left) in
      rw n (
        if-split (λ o. o ≡ get_elem? (entries l ++ e ∷ entries r) rank)
          (ltb (length (entries l)) rank)
          (λ right.
            select-eq_get_elem? r (rank - length (entries l) - 1) h.1 (omega (arith, len))
            ∙ sym (get_elem?-behind (entries l) e (entries r) rank (ground arith)))
          λ not_right.
            if-split (λ o. o ≡ get_elem? (entries l ++ e ∷ entries r) rank)
              (ltb rank (length (entries l)))
              (λ left.
                select-eq_get_elem? l rank h.0 (omega (arith, len))
                ∙ sym (get_elem?-before (entries l) (e ∷ entries r) rank (ground arith)))
              λ not_left.
                let here : rank ≡ length (entries l) = ground arith in
                rw here (sym (get_elem?-at (entries l) e (entries r))))
