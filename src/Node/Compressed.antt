-- ===== src/Node/Compressed.antt =====
-- The builders of blocks keep the entries that they are given, and give blocks of the right size.
use cpam.Base.{
  ℕ, ◌+◌, ◌*◌, ◌/◌, ◌<◌, ◌≤◌, ◌≡◌, refl, ap, ap₂, ◌∙◌, Option, none, some, List, [], ◌∷◌, ◌++◌,
  append_assoc, arith, length, length-append, take, take-all, with_cut-cut, if-both, if-split, leb,
  ◌==◌,
}
use cpam.Node.{Node, empty, regular, compressed, size, update, iterate_seq, push}
use cpam.Node.Iterate.{entries, iterate_seq-push}
use cpam.Node.Contents.{IsSized, Holds, update-Holds, size-IsSized}
use cpam.Node.Blocks.{
  single_compressed_node, two_compressed_nodes, half_below, make_two_nodes, four_compressed_nodes,
  make_compressed_array, fill, make_compressed,
}

module _ {ℓ} {A : Type ℓ} where
  pub compressed-Holds : (xs : List A) → Holds xs (compressed xs)
  compressed-Holds xs = record { sized = tt; held = refl }

  pub empty-Holds : Holds {A = A} [] empty
  empty-Holds = record { sized = tt; held = refl }

  -- The parts of a cut that is not followed by more than `n` entries.
  take-Holds : (n : ℕ) (xs : List A) → length xs ≤ n → Holds xs (compressed (take n xs))
  take-Holds n xs h = record { sized = tt; held = take-all n xs h }

  two_blocks :
      {xs : List A} (n : ℕ) (front : List A) (x : A) (back : List A)
      → xs ≡ front ++ x ∷ back
      → length back ≤ n
      → Holds xs (update (compressed front) x (compressed (take n back)))
  two_blocks n front x back e h =
      rw e (update-Holds _ x _ (compressed-Holds front) (take-Holds n back h))

  pub two_compressed_nodes-Holds :
      (xs : List A) → 0 < length xs → Holds xs (two_compressed_nodes xs)
  unfolding two_compressed_nodes
  two_compressed_nodes-Holds xs h =
      with_cut-cut (Holds xs) empty _ (length xs / 2) xs (omega arith)
        λ front x back e lf lb. two_blocks _ front x back e (ground arith)

  make_two_nodes-Holds : (B : ℕ) (xs : List A) → 0 < length xs → Holds xs (make_two_nodes B xs)
  unfolding make_two_nodes
  make_two_nodes-Holds B xs h = if-both (Holds xs) (length xs == 2 * B) (compressed-Holds xs) (
      with_cut-cut (Holds xs) empty _ (half_below (length xs)) xs (ground arith)
        λ front x back e lf lb. two_blocks _ front x back e (ground arith))

  pub four_compressed_nodes-Holds :
      (B : ℕ) (xs : List A) → 4 < length xs → Holds xs (four_compressed_nodes B xs)
  unfolding four_compressed_nodes
  four_compressed_nodes-Holds B xs h =
      with_cut-cut (Holds xs) empty _ (half_below (length xs)) xs (ground arith)
        λ front x back e lf lb.
          rw (take-all (length xs / 2) back (ground arith), e)
            (update-Holds _ x _ (make_two_nodes-Holds B front (ground arith))
              (make_two_nodes-Holds B back (ground arith)))

  -- For blocks of a positive size B `make_compressed` of an array builds a tree with right size
  -- fields that holds exactly the array, in its order, for arrays of all lengths.
  pub make_compressed_array-Holds :
      (B : ℕ) (xs : List A) → 0 < B → Holds xs (make_compressed_array B xs)
  unfolding make_compressed_array single_compressed_node
  make_compressed_array-Holds B xs h =
      if-split (Holds xs) (leb (length xs) (2 * B)) (λ _. compressed-Holds xs)
        λ big.
          if-split (Holds xs) (leb (length xs) (4 * B + 1))
            (λ _. two_compressed_nodes-Holds xs (ground arith))
            λ bigger. four_compressed_nodes-Holds B xs (ground arith)

  -- An entry, if there is one, in front of a list.
  abbrev pub between : Option A → List A → List A
  between none ys = ys
  between (some x) ys = x ∷ ys

  fill-entries :
      (l : Node A) (e : Option A) (r : Node A) → fill l e r ≡ entries l ++ between e (entries r)
  unfolding fill
  fill-entries l none r =
      iterate_seq-push r (iterate_seq push l [])
      ∙ ap (λ buffer. buffer ++ entries r) (iterate_seq-push l [])
  fill-entries l (some x) r =
      iterate_seq-push r _
      ∙ ap (λ buffer. (buffer ++ x ∷ []) ++ entries r) (iterate_seq-push l [])
      ∙ append_assoc (entries l) (x ∷ []) (entries r)

  -- The sizes say at most what is in the buffer.
  tot-le-length :
      (l : Node A) (e : Option A) (r : Node A) (n : ℕ)
      → IsSized l
      → IsSized r
      → n < size l + size r + (elim e [ none ↦ 0 | some _ ↦ 1 ])
      → n < length (entries l ++ between e (entries r))
  tot-le-length l none r n hl hr h =
      omega (arith, length-append (entries l) (entries r), size-IsSized l hl, size-IsSized r hr)
  tot-le-length l (some x) r n hl hr h =
      omega (arith, length-append (entries l) (x ∷ entries r), size-IsSized l hl, size-IsSized r hr)

  pub make_compressed-entries :
      (B : ℕ) (l r : Node A) (e : Option A)
      → 0 < B
      → IsSized l
      → IsSized r
      → Holds (entries l ++ between e (entries r)) (make_compressed B l r e)
  unfolding make_compressed single_compressed_node
  make_compressed-entries B l r e h hl hr =
      let xs = entries l ++ between e (entries r) in
      let tot = size l + size r + (elim e [ none ↦ 0 | some _ ↦ 1 ]) in
      let most = tot-le-length l e r in
      rw (fill-entries l e r) (
        if-split (Holds xs) (leb tot (2 * B)) (λ _. compressed-Holds xs)
          λ big.
            if-split (Holds xs) (leb tot (4 * B + 1))
              (λ _. two_compressed_nodes-Holds xs (most 0 hl hr (ground arith)))
              λ bigger. four_compressed_nodes-Holds B xs (most 4 hl hr (ground arith)))

  -- Two trees and the entry between them, put into blocks.
  pub make_compressed-Holds :
      {xs ys : List A} (B : ℕ) (l : Node A) (e : A) (r : Node A)
      → 0 < B
      → Holds xs l
      → Holds ys r
      → Holds (xs ++ e ∷ ys) (make_compressed B l r (some e))
  make_compressed-Holds B l e r h hl hr =
      let built = make_compressed-entries B l r (some e) h hl.sized hr.sized in
      record { sized = built.sized; held = built.held ∙ ap₂ (λ a b. a ++ e ∷ b) hl.held hr.held }

  -- Two trees, put into blocks.
  pub make_compressed2-Holds :
      {xs ys : List A} (B : ℕ) (l r : Node A)
      → 0 < B
      → Holds xs l
      → Holds ys r
      → Holds (xs ++ ys) (make_compressed B l r none)
  make_compressed2-Holds B l r h hl hr =
      let built = make_compressed-entries B l r none h hl.sized hr.sized in
      record { sized = built.sized; held = built.held ∙ ap₂ (λ a b. a ++ b) hl.held hr.held }

  -- Every block has from `lo` to `hi` entries.
  abbrev pub AllBlocks : ℕ → ℕ → Node A → Type 0
  AllBlocks lo hi empty = Unit
  AllBlocks lo hi (regular s l e r) = AllBlocks lo hi l × AllBlocks lo hi r
  AllBlocks lo hi (compressed es) = (lo ≤ length es) × (length es ≤ hi)

  two_blocks-AllBlocks :
      {n : ℕ} (B : ℕ) (front : List A) (x : A) (back : List A)
      → (B ≤ length front) × (length front ≤ 2 * B)
      → (B ≤ length back) × (length back ≤ 2 * B)
      → length back ≤ n
      → AllBlocks B (2 * B) (update (compressed front) x (compressed (take n back)))
  unfolding update
  two_blocks-AllBlocks B front x back hf hb h = rw (take-all _ back h) (hf, hb)

  two_compressed_nodes-AllBlocks :
      (B : ℕ) (xs : List A)
      → 2 * B < length xs
      → length xs ≤ 4 * B + 1
      → AllBlocks B (2 * B) (two_compressed_nodes xs)
  unfolding two_compressed_nodes
  two_compressed_nodes-AllBlocks B xs h k =
      with_cut-cut (AllBlocks B (2 * B)) empty _ (length xs / 2) xs (omega arith)
        λ front x back e lf lb.
          two_blocks-AllBlocks B front x back (omega arith) (omega arith) (ground arith)

  make_two_nodes-AllBlocks :
      (B : ℕ) (xs : List A)
      → 2 * B ≤ length xs
      → length xs ≤ 4 * B + 1
      → AllBlocks B (2 * B) (make_two_nodes B xs)
  unfolding make_two_nodes
  make_two_nodes-AllBlocks B xs h k =
      if-split (AllBlocks B (2 * B)) (length xs == 2 * B) (λ e. ground arith)
        λ n.
          with_cut-cut (AllBlocks B (2 * B)) empty _ (half_below (length xs)) xs (ground arith)
            λ front x back e lf lb.
              two_blocks-AllBlocks B front x back (ground arith) (ground arith) (ground arith)

  four_compressed_nodes-AllBlocks :
      (B : ℕ) (xs : List A)
      → 4 * B + 1 < length xs
      → length xs ≤ 8 * B + 2
      → AllBlocks B (2 * B) (four_compressed_nodes B xs)
  unfolding four_compressed_nodes update
  four_compressed_nodes-AllBlocks B xs h k =
      with_cut-cut (AllBlocks B (2 * B)) empty _ (half_below (length xs)) xs (ground arith)
        λ front x back e lf lb. rw (take-all (length xs / 2) back (ground arith)) (
          make_two_nodes-AllBlocks B front (ground arith) (ground arith),
          make_two_nodes-AllBlocks B back (ground arith) (ground arith),
        )

  -- For a buffer of B to 8 * B + 2 entries `make_compressed` of an array builds only blocks of B to
  -- 2 * B entries.
  pub make_compressed_array-AllBlocks :
      (B : ℕ) (xs : List A)
      → B ≤ length xs
      → length xs ≤ 8 * B + 2
      → AllBlocks B (2 * B) (make_compressed_array B xs)
  unfolding make_compressed_array single_compressed_node
  make_compressed_array-AllBlocks B xs h k =
      if-split (AllBlocks B (2 * B)) (leb (length xs) (2 * B)) (λ small. ground arith)
        λ big.
          if-split (AllBlocks B (2 * B)) (leb (length xs) (4 * B + 1))
            (λ mid. two_compressed_nodes-AllBlocks B xs (ground arith) (ground arith))
            λ bigger. four_compressed_nodes-AllBlocks B xs (ground arith) k
