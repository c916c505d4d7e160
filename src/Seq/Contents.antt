-- ===== src/Seq/Contents.antt =====
-- Trees built from arrays hold the array; an exposed tree and a concatenation hold what they should.
use cpam.Base.{
  ℕ, zero, suc, ◌+◌, ◌*◌, ◌/◌, ◌<◌, ◌≤◌, ◌≡◌, refl, sym, ap, ap₂, ◌∙◌, false, ◌&&◌, ◌||◌, List, [],
  ◌∷◌, ◌++◌, ltb, leb, ◌==◌, if-both, if-split, append-nil, append_assoc, arith, length, cut,
  with_cut-cut,
}
use cpam.Node.{
  Node, empty, regular, compressed, size, single, is_compressed, will_be_compressed,
  compressed_node_elms,
}
use cpam.Node.Iterate.{entries, iterate_seq-push}
use cpam.Node.Contents.{IsSized, Holds, Holds-self}
use cpam.Node.Compressed.{
  make_compressed2-Holds, make_compressed_array-Holds, empty-Holds, compressed-Holds,
}
use cpam.Balance.Contents.{regular_node_join-Holds}
use cpam.Balance.Join.{node_join-Holds}
use cpam.Balance.Shape.{IsNode, regular_node_join-IsNode}
use cpam.Seq.{
  single_first, fields, with_parts, to_tree_loop, to_tree_impl, to_tree, expose, join, build_tree,
  from_array_loop, from_array, join2_step, join2,
}

module _ {ℓ} {A : Type ℓ} where
  pub single-Holds : (e : A) → Holds (e ∷ []) (single e)
  unfolding single
  single-Holds e = record { sized = (tt, tt, omega arith); held = refl }

  single_first-Holds : (xs : List A) → length xs ≡ 1 → Holds xs (single_first xs)
  unfolding cut
  single_first-Holds [] h = absurd (omega arith)
  single_first-Holds (x ∷ []) h = single-Holds x
  single_first-Holds (x ∷ y ∷ xs) h = absurd (omega arith)

  empty_array : (xs : List A) → length xs ≡ 0 → Holds xs empty
  empty_array [] h = empty-Holds
  empty_array (x ∷ xs) h = absurd (omega arith)

module _ {ℓ} {A : Type ℓ} (B : ℕ) where
  to_tree_loop-Holds :
      (fuel : ℕ) (xs : List A) (depth : ℕ)
      → length xs ≤ fuel
      → Holds xs (to_tree_loop B fuel xs depth)
  unfolding to_tree_loop
  to_tree_loop-Holds zero xs depth h = empty_array xs (omega arith)
  to_tree_loop-Holds (suc fuel) xs depth h =
      if-split (Holds xs) (length xs == 0) (λ e. empty_array xs (ground arith))
        λ n0.
          if-split (Holds xs) (length xs == 1) (λ e. single_first-Holds xs (ground arith))
            λ n1. if-both (Holds xs) (length xs == B && ltb 0 depth) (compressed-Holds xs) (
              with_cut-cut (Holds xs) empty _ (length xs / 2) xs (ground arith)
                λ front x back e lf lb. rw e (
                  regular_node_join-Holds _ _ x
                    (to_tree_loop-Holds fuel front (depth + 1) (ground arith))
                    (to_tree_loop-Holds fuel back (depth + 1) (ground arith))))

  -- `to_tree_impl` returns a tree with right size fields that holds exactly the array, in its
  -- order, at every depth.
  pub to_tree_impl-Holds : (xs : List A) (depth : ℕ) → Holds xs (to_tree_impl B xs depth)
  unfolding to_tree_impl
  to_tree_impl-Holds xs depth = to_tree_loop-Holds (length xs) xs depth (omega arith)

  to_tree_loop-IsNode :
      (fuel : ℕ) (x : A) (xs : List A) → length xs < fuel → IsNode (to_tree_loop B fuel (x ∷ xs) 0)
  unfolding to_tree_loop
  to_tree_loop-IsNode zero x xs h = absurd (omega arith)
  to_tree_loop-IsNode (suc fuel) x xs h =
      if-split IsNode (length (x ∷ xs) == 0) (λ e. absurd (ground arith))
        λ n0.
          if-split IsNode (length (x ∷ xs) == 1) (λ e. unfold cut single in tt)
            λ n1.
              if-split IsNode (length (x ∷ xs) == B && false) (λ e. absurd (ground arith))
                λ _.
                  with_cut-cut IsNode empty _ (length (x ∷ xs) / 2) (x ∷ xs) (omega arith)
                    λ front y back e lf lb. regular_node_join-IsNode _ _ y

  to_tree_impl-IsNode : (x : A) (xs : List A) → IsNode (to_tree_impl B (x ∷ xs) 0)
  unfolding to_tree_impl
  to_tree_impl-IsNode x xs = to_tree_loop-IsNode (suc (length xs)) x xs (omega arith)

  to_tree_impl-nil : to_tree_impl {A = A} B [] 0 ≡ empty
  unfolding to_tree_impl to_tree_loop
  to_tree_impl-nil = refl

  to_tree_lem : (es : List A) → to_tree B (compressed es) ≡ to_tree_impl B es 0
  unfolding to_tree compressed_node_elms
  to_tree_lem es = ap (λ xs. to_tree_impl B xs 0) (iterate_seq-push (compressed es) [])

  -- Where the parts of a root come from.
  fields_elim {κ μ} :
      {C : Type κ} (P : C → Type μ) (past : C) (f : Node A → A → Node A → C) (t : Node A)
      → IsNode t
      → IsSized t
      → ((l : Node A) (e : A) (r : Node A)
          → IsSized l
          → IsSized r
          → entries t ≡ entries l ++ e ∷ entries r
          → P (f l e r))
      → P (with_parts past f (fields t))
  fields_elim P past f empty n h each = absurd n
  fields_elim P past f (regular s l e r) n h each = each l e r h.0 h.1 refl
  fields_elim P past f (compressed es) n h each = absurd n

  -- To prove something of what is done with an exposed tree, prove it of parts that hold the tree's
  -- entries in order; only a tree without entries has none.
  pub expose_elim {κ μ} :
      {C : Type κ} (P : C → Type μ) (past : C) (f : Node A → A → Node A → C) (t : Node A)
      → IsSized t
      → (entries t ≡ [] → P past)
      → ((l : Node A) (e : A) (r : Node A)
          → IsSized l
          → IsSized r
          → entries t ≡ entries l ++ e ∷ entries r
          → P (f l e r))
      → P (with_parts past f (expose B t))
  unfolding expose
  expose_elim P past f empty h missing each = missing refl
  expose_elim P past f (regular s l e r) h missing each = each l e r h.0 h.1 refl
  expose_elim P past f (compressed []) h missing each =
      rw (to_tree_lem [], to_tree_impl-nil) (missing refl)
  expose_elim P past f (compressed (x ∷ xs)) h missing each =
      let built = to_tree_impl-Holds (x ∷ xs) 0 in
      rw (to_tree_lem (x ∷ xs)) (
        fields_elim P past f (to_tree_impl B (x ∷ xs) 0) (to_tree_impl-IsNode x xs) built.sized
          λ l e r hl hr whole. each l e r hl hr (sym built.held ∙ whole))

module _ {ℓ} {A : Type ℓ} (B : ℕ) (pos : 0 < B) where
  pub join-Holds :
      {xs ys : List A} (l : Node A) (e : A) (r : Node A)
      → Holds xs l
      → Holds ys r
      → Holds (xs ++ e ∷ ys) (join B l e r)
  unfolding join
  join-Holds l e r hl hr = node_join-Holds B pos l r e hl hr

  pub build_tree-Holds : (xs : List A) → Holds xs (build_tree B xs)
  unfolding build_tree
  build_tree-Holds xs =
      if-both (Holds xs) (ltb (length xs) B) (to_tree_impl-Holds B xs 0)
        (make_compressed_array-Holds B xs pos)

  from_array_loop-Holds :
      (fuel : ℕ) (xs : List A) → length xs ≤ fuel → Holds xs (from_array_loop B fuel xs)
  unfolding from_array_loop
  from_array_loop-Holds zero xs h = empty_array xs (omega arith)
  from_array_loop-Holds (suc fuel) xs h =
      if-split (Holds xs) (length xs == 0) (λ e. empty_array xs (ground arith))
        λ n0.
          if-split (Holds xs) (length xs == 1) (λ e. single_first-Holds xs (ground arith))
            λ n1.
              if-both (Holds xs) (leb B (length xs) && leb (length xs) (2 * B))
                (make_compressed_array-Holds B xs pos)
                (with_cut-cut (Holds xs) empty _ (length xs / 2) xs (ground arith)
                  λ front x back e lf lb. rw e (
                    node_join-Holds B pos _ _ x (from_array_loop-Holds fuel front (ground arith))
                      (from_array_loop-Holds fuel back (ground arith))))

  -- For blocks of a positive size B: `from_array` returns a tree with right size fields that holds
  -- exactly the array, in its order, for arrays of all lengths.
  pub from_array-Holds : (xs : List A) → Holds xs (from_array B xs)
  unfolding from_array
  from_array-Holds xs = from_array_loop-Holds (length xs) xs (omega arith)

  join2_step-Holds :
      {xs ys : List A} (b1 b2 into1 into2 : Node A)
      → Holds xs b1
      → Holds ys b2
      → (is_compressed b1 ≡ false → Holds (xs ++ ys) into1)
      → (is_compressed b2 ≡ false → Holds (xs ++ ys) into2)
      → Holds (xs ++ ys) (join2_step B b1 b2 into1 into2)
  join2_step-Holds b1 b2 into1 into2 h1 h2 k1 k2 =
      let blocks = make_compressed2-Holds B b1 b2 pos h1 h2 in
      let fits = will_be_compressed B (size b1 + size b2) in
      if-both (Holds _) (ltb (size b2) (size b1))
        (if-split (Holds _) (is_compressed b1 || fits) (λ _. blocks) λ n. k1 (ground arith))
        (if-split (Holds _) (is_compressed b2 || fits) (λ _. blocks) λ n. k2 (ground arith))

  join2-entries :
      (b1 b2 : Node A) → IsSized b1 → IsSized b2 → Holds (entries b1 ++ entries b2) (join2 B b1 b2)
  unfolding join2
  join2-entries empty b2 h1 h2 = Holds-self b2 h2
  join2-entries (compressed xs) empty h1 h2 = rw append-nil (Holds-self _ h1)
  join2-entries (compressed xs) (compressed ys) h1 h2 =
      join2_step-Holds _ _ empty empty (Holds-self _ h1) (Holds-self _ h2) (λ n. cc) (λ n. cc)
  join2-entries (compressed xs) (regular s l e r) h1 h2 =
      let deeper = join2-entries (compressed xs) l h1 h2.0 in
      join2_step-Holds _ _ empty _ (Holds-self _ h1) (Holds-self _ h2) (λ n. cc)
        λ n.
          rw (← append_assoc xs (entries l) (e ∷ entries r))
            (join-Holds _ e r deeper (Holds-self r h2.1))
  join2-entries (regular s l e r) empty h1 h2 = rw append-nil (Holds-self _ h1)
  join2-entries (regular s l e r) (compressed ys) h1 h2 =
      let deeper = join2-entries r (compressed ys) h1.1 h2 in
      join2_step-Holds _ _ _ empty (Holds-self _ h1) (Holds-self _ h2)
        (λ n.
          rw (append_assoc (entries l) (e ∷ entries r) ys)
            (join-Holds l e _ (Holds-self l h1.0) deeper))
        λ n. cc
  join2-entries (regular s1 l1 e1 r1) (regular s2 l2 e2 r2) h1 h2 =
      let deeper1 = join2-entries r1 (regular s2 l2 e2 r2) h1.1 h2 in
      let deeper2 = join2-entries (regular s1 l1 e1 r1) l2 h1 h2.0 in
      let ys = entries (regular s2 l2 e2 r2) in
      let xs = entries (regular s1 l1 e1 r1) in
      join2_step-Holds _ _ _ _ (Holds-self _ h1) (Holds-self _ h2)
        (λ n.
          rw (append_assoc (entries l1) (e1 ∷ entries r1) ys)
            (join-Holds l1 e1 _ (Holds-self l1 h1.0) deeper1))
        λ n.
          rw (← append_assoc xs (entries l2) (e2 ∷ entries r2))
            (join-Holds _ e2 r2 deeper2 (Holds-self r2 h2.1))

  pub join2-Holds :
      {xs ys : List A} (b1 b2 : Node A)
      → Holds xs b1
      → Holds ys b2
      → Holds (xs ++ ys) (join2 B b1 b2)
  join2-Holds b1 b2 h1 h2 =
      let joined = join2-entries b1 b2 h1.sized h2.sized in
      record { sized = joined.sized; held = joined.held ∙ ap₂ (λ a b. a ++ b) h1.held h2.held }
