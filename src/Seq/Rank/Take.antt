-- ===== src/Seq/Rank/Take.antt =====
-- `take` and `suffix`: what they yield, and what they yield where the position falls beside a root.
use cpam.Base
use cpam.Base.{
  ℕ, zero, suc, ◌+◌, ◌-◌, ◌%◌, ◌<◌, ◌≤◌, ◌≡◌, ◌≢◌, refl, sym, ap, ◌∙◌, Bool, true, false, Option,
  none, some, List, [], ◌∷◌, ◌++◌, ltb, leb, ◌==◌, if◌then◌else◌, length, length-append, drop,
  arith, Bool-cases, inl, inr, if-split, u32_mod, u64_mod, sub64, append-nil, append_assoc,
  take-all, take-nil, drop-nil, drop-all, take-before, take-behind, drop-before, drop-behind,
}
use cpam.Node.{Node, empty, regular, compressed, size, decode, push}
use cpam.Node.Iterate.{entries, iterate_seq-entries}
use cpam.Node.Contents.{IsSized, Holds, Holds-self, size-IsSized}
use cpam.Node.Compressed.{empty-Holds}
use cpam.Seq.Contents.{build_tree-Holds, join-Holds}
use cpam.Seq.Rank.{take_compressed, take, copy_if, entry_bc, suffix}

module _ {ℓ} {A : Type ℓ} where
  -- No root on the way down has just `rank` entries on its left.
  abbrev pub TakeAvoids : Node A → ℕ → Type 0
  TakeAvoids (regular s l e r) rank =
      (rank ≢ length (entries l))
      × (rank < length (entries l) → TakeAvoids l rank)
      × (length (entries l) < rank → TakeAvoids r (rank - length (entries l) - 1))
  TakeAvoids t rank = Unit

  -- No root on the way down is the last entry before `rank`.
  abbrev pub SuffixAvoids : Node A → ℕ → Type 0
  SuffixAvoids (regular s l e r) rank =
      (rank ≢ length (entries l) + 1)
      × (rank ≤ length (entries l) → SuffixAvoids l rank)
      × (length (entries l) + 1 < rank → SuffixAvoids r (rank - length (entries l) - 1))
  SuffixAvoids t rank = Unit

  decode-take :
      (es : List A) (rank : ℕ) (buffer : List A)
      → length buffer ≤ rank
      → decode (λ buffer e. if ltb (length buffer) rank then push buffer e else buffer) es buffer
        ≡ buffer ++ Base.take (rank - length buffer) es
  unfolding decode
  decode-take [] rank buffer h = rw take-nil (sym (append-nil buffer))
  decode-take (e ∷ es) rank buffer h = elim (Bool-cases (ltb (length buffer) rank)) [
    | inl more ↦
        let z : rank - length buffer ≡ suc (rank - length (buffer ++ e ∷ [])) =
          ground (arith, length-append buffer (e ∷ [])) in
        rw (more, z)
          (decode-take es rank (push buffer e) (ground (arith, length-append buffer (e ∷ [])))
            ∙ append_assoc buffer (e ∷ []) _)
    | inr full ↦
        let z : rank - length buffer ≡ 0 = ground arith in
        rw (full, z) (decode-take es rank buffer h ∙ rw z refl)
  ]

  decode-copy_from :
      (es : List A) (rank i : ℕ) (buffer : List A)
      → (decode (copy_if (λ j. leb rank j)) es (i, buffer)).1 ≡ buffer ++ drop (rank - i) es
  unfolding decode
  decode-copy_from [] rank i buffer = rw drop-nil (sym (append-nil buffer))
  decode-copy_from (e ∷ es) rank i buffer =
      if-split
        (λ b.
          (decode (copy_if (λ j. leb rank j)) es (i + 1, b)).1 ≡ buffer ++ drop (rank - i) (e ∷ es))
        (leb rank i)
        (λ kept.
          let z : rank - i ≡ 0 = ground arith in
          let z' : rank - (i + 1) ≡ 0 = ground arith in
          rw z (
            decode-copy_from es rank (i + 1) (push buffer e)
            ∙ rw z' (append_assoc buffer (e ∷ []) es)))
        λ skipped.
          let z : rank - i ≡ suc (rank - (i + 1)) = ground arith in
          rw z (decode-copy_from es rank (i + 1) buffer)

module _ {ℓ} {A : Type ℓ} (B : ℕ) (pos : 0 < B) where
  take_compressed-Holds :
      (es : List A) (rank : ℕ) → Holds (Base.take rank es) (take_compressed B (compressed es) rank)
  unfolding take_compressed
  take_compressed-Holds es rank =
      let copied =
        iterate_seq-entries (λ buffer e. if ltb (length buffer) rank then push buffer e else buffer)
          (compressed es) []
        ∙ decode-take es rank [] (omega arith)
        ∙ ap (λ n. Base.take n es) (omega arith) in
      rw copied (build_tree-Holds B pos (Base.take rank es))

  -- For blocks of a positive size B, a tree with right size fields and fewer than 2 ^ 32 entries,
  -- and a rank below 2 ^ 64 such that no root on the way down has just as many entries on its left:
  -- `take` returns a tree of the first `rank` entries.
  pub take-Holds :
      (t : Node A) (rank : ℕ)
      → IsSized t
      → length (entries t) < u32_mod
      → rank < u64_mod
      → TakeAvoids t rank
      → Holds (Base.take rank (entries t)) (take B t rank)
  unfolding take
  take-Holds empty rank h small r64 avoids = rw take-nil empty-Holds
  take-Holds (compressed es) rank h small r64 avoids = take_compressed-Holds es rank
  take-Holds (regular s l e r) rank h small r64 avoids =
      let len = length-append (entries l) (e ∷ entries r) in
      let left = length (entries l) in
      let n : size l ≡ left = omega (arith, len, size-IsSized l h.0) in
      let P = Holds (Base.take rank (entries l ++ e ∷ entries r)) in
      rw n (
        if-split P (ltb rank left)
          (λ before.
            rw (take-before rank (entries l) (e ∷ entries r) (ground arith))
              (take-Holds l rank h.0 (omega (arith, len)) r64 (avoids.1 (ground arith))))
          λ not_before.
            let behind : left < rank = ground (arith, avoids.0) in
            let w : sub64 (sub64 rank left) 1 ≡ rank - left - 1 = omega arith in
            rw (take-behind rank (entries l) e (entries r) behind, w)
              (join-Holds B pos l e _ (Holds-self l h.0) (
                take-Holds r (rank - left - 1) h.1 (omega (arith, len)) (omega arith)
                  (avoids.2 behind))))

  -- `take` keeps the whole tree for a `rank` of at least its number of entries.
  TakeAvoids-whole : (t : Node A) (rank : ℕ) → length (entries t) ≤ rank → TakeAvoids t rank
  TakeAvoids-whole empty rank h = tt
  TakeAvoids-whole (compressed es) rank h = tt
  TakeAvoids-whole (regular s l e r) rank h =
      let len = length-append (entries l) (e ∷ entries r) in
      (
        λ same. absurd (omega (arith, len)),
        λ before. absurd (omega (arith, len)),
        λ behind. TakeAvoids-whole r (rank - length (entries l) - 1) (omega (arith, len)),
      )

  take_whole :
      (t : Node A) (rank : ℕ)
      → IsSized t
      → length (entries t) < u32_mod
      → rank < u64_mod
      → length (entries t) ≤ rank
      → Holds (entries t) (take B t rank)
  take_whole t rank h small r64 long =
      rw (take-all rank (entries t) long) at
        (take-Holds t rank h small r64 (TakeAvoids-whole t rank long))

  -- For blocks of a positive size B and a tree with right size fields and fewer than 2 ^ 32
  -- entries: `take` of just as many entries as the root has on its left yields all entries of the
  -- tree, since `rank - left_size - 1` wraps around.
  pub take_at_root :
      (s : ℕ) (l : Node A) (e : A) (r : Node A)
      → IsSized (regular s l e r)
      → length (entries (regular s l e r)) < u32_mod
      → entries (take B (regular s l e r) (length (entries l))) ≡ entries (regular s l e r)
  unfolding take
  take_at_root s l e r h small =
      let len = length-append (entries l) (e ∷ entries r) in
      let left = length (entries l) in
      let n : size l ≡ left = omega (arith, len, size-IsSized l h.0) in
      let P = λ (t : Node A). entries t ≡ entries l ++ e ∷ entries r in
      let w : sub64 (sub64 left left) 1 ≡ u64_mod - 1 = omega arith in
      rw n (
        if-split P (ltb left left) (λ x. absurd (ground arith))
          λ _.
            rw w
              (join-Holds B pos l e _ (Holds-self l h.0) (
                take_whole r (u64_mod - 1) h.1 (omega (arith, len)) (omega arith)
                  (omega (arith, len)))).held)

  entry_bc-Holds :
      (es : List A) (rank : ℕ) → Holds (drop rank es) (entry_bc B (compressed es) (λ i. leb rank i))
  unfolding entry_bc
  entry_bc-Holds es rank =
      let copied =
        ap (λ s. s.1) (iterate_seq-entries (copy_if (λ i. leb rank i)) (compressed es) (0, []))
        ∙ decode-copy_from es rank 0 []
        ∙ ap (λ n. drop n es) (omega arith) in
      rw copied (build_tree-Holds B pos (drop rank es))

  -- For blocks of a positive size B, a tree with right size fields and fewer than 2 ^ 32 entries,
  -- and a rank such that no root on the way down is the last of that many entries: `suffix` returns
  -- a tree of the entries behind the first `rank`.
  pub suffix-Holds :
      (t : Node A) (rank : ℕ)
      → IsSized t
      → length (entries t) < u32_mod
      → SuffixAvoids t rank
      → Holds (drop rank (entries t)) (suffix B t rank)
  unfolding suffix
  suffix-Holds empty rank h small avoids = rw drop-nil empty-Holds
  suffix-Holds (compressed es) rank h small avoids = entry_bc-Holds es rank
  suffix-Holds (regular s l e r) rank h small avoids =
      let len = length-append (entries l) (e ∷ entries r) in
      let left = length (entries l) in
      let n : size l ≡ left = omega (arith, len, size-IsSized l h.0) in
      let P = Holds (drop rank (entries l ++ e ∷ entries r)) in
      rw n (
        if-split P (ltb (left + 1) rank)
          (λ behind.
            rw (drop-behind rank (entries l) e (entries r) (ground arith))
              (suffix-Holds r (rank - left - 1) h.1 (omega (arith, len)) (avoids.2 (ground arith))))
          λ not_behind.
            let before : rank ≤ left = ground (arith, avoids.0) in
            rw (drop-before rank (entries l) (e ∷ entries r) before) (
              join-Holds B pos _ e r
                (suffix-Holds l rank h.0 (omega (arith, len)) (avoids.1 before))
                (Holds-self r h.1)))

  SuffixAvoids-none : (t : Node A) (rank : ℕ) → length (entries t) < rank → SuffixAvoids t rank
  SuffixAvoids-none empty rank h = tt
  SuffixAvoids-none (compressed es) rank h = tt
  SuffixAvoids-none (regular s l e r) rank h =
      let len = length-append (entries l) (e ∷ entries r) in
      (
        λ same. absurd (omega (arith, len)),
        λ before. absurd (omega (arith, len)),
        λ behind. SuffixAvoids-none r (rank - length (entries l) - 1) (omega (arith, len)),
      )

  -- For blocks of a positive size B and a tree with right size fields and fewer than 2 ^ 32
  -- entries: `suffix` by one more than the entries on the root's left yields the root and the
  -- entries on its right, so that one entry too many is kept.
  pub suffix_at_root :
      (s : ℕ) (l : Node A) (e : A) (r : Node A)
      → IsSized (regular s l e r)
      → length (entries (regular s l e r)) < u32_mod
      → entries (suffix B (regular s l e r) (length (entries l) + 1)) ≡ e ∷ entries r
  unfolding suffix
  suffix_at_root s l e r h small =
      let len = length-append (entries l) (e ∷ entries r) in
      let left = length (entries l) in
      let n : size l ≡ left = omega (arith, len, size-IsSized l h.0) in
      let P = λ (t : Node A). entries t ≡ e ∷ entries r in
      let dropped =
        suffix-Holds l (left + 1) h.0 (omega (arith, len)) (SuffixAvoids-none l _ (omega arith)) in
      rw n (
        if-split P (ltb (left + 1) (left + 1)) (λ x. absurd (ground arith))
          λ _.
            (join-Holds B pos _ e r dropped (Holds-self r h.1)).held
            ∙ rw (drop-all (left + 1) (entries l) (omega arith)) refl)
