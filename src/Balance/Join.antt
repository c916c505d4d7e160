-- ===== src/Balance/Join.antt =====
-- The joins of trees with blocks keep the entries in order and the size fields right.
use cpam.Base.{
  ℕ, ◌+◌, ◌%◌, ◌<◌, true, false, ◌&&◌, ◌||◌, not, none, List, ◌∷◌, ◌++◌, ltb, leb, if-both, u32_mod,
  append-nil,
}
use cpam.Node.{
  Node, empty, regular, compressed, size, is_compressed, is_regular, will_be_compressed,
}
use cpam.Node.Iterate.{entries}
use cpam.Node.Contents.{Holds, update-Holds, Holds-self}
use cpam.Node.Blocks.{make_compressed}
use cpam.Node.Compressed.{make_compressed-Holds, make_compressed2-Holds, empty-Holds}
use cpam.Balance.Contents.{
  regroup, rotate_left-Holds, rotate_right-Holds, double_rotate_left-Holds,
  double_rotate_right-Holds,
}
use cpam.Balance.{
  is_left_heavy, is_single_rotation, could_single_rotate, balanced_join, rebalance_right,
  rebalance_left, right_join, left_join, upper_threshold, regular_join, join_regular_compressed,
  join_compressed_regular, join_compressed, node_join, left_child, right_child,
}

module _ {ℓ} {A : Type ℓ} (B : ℕ) (pos : 0 < B) where
  balanced_join-Holds :
      {xs ys : List A} (l r : Node A) (e : A)
      → Holds xs l
      → Holds ys r
      → Holds (xs ++ e ∷ ys) (balanced_join B l r e)
  unfolding balanced_join
  balanced_join-Holds l r e hl hr =
      if-both (Holds _) ((ltb (size l) B || ltb (size r) B) && leb B (size l + size r + 1))
        (make_compressed-Holds B l e r pos hl hr) (update-Holds l e r hl hr)

  -- Both entries lists, of which the second is empty, in one block.
  make_compressed_only-Holds :
      {xs : List A} (t : Node A) → Holds xs t → Holds xs (make_compressed B t empty none)
  make_compressed_only-Holds {xs} t h =
      rw append-nil at (make_compressed2-Holds {xs = xs} B t empty pos h empty-Holds)

  rebalance_right-Holds :
      {xs ys : List A} (l : Node A) (e : A) (r : Node A)
      → Holds xs l
      → Holds ys r
      → Holds (xs ++ e ∷ ys) (rebalance_right B l e r)
  unfolding rebalance_right
  rebalance_right-Holds l e r hl hr =
      if-both (Holds _) (is_left_heavy r l)
        (if-both (Holds _) (is_single_rotation r false) (rotate_left-Holds l e r hl hr) (
          if-both (Holds _) (is_compressed (left_child r))
            (make_compressed_only-Holds _ (update-Holds l e r hl hr))
            (double_rotate_left-Holds l e r hl hr)))
        (update-Holds l e r hl hr)

  rebalance_left-Holds :
      {xs ys : List A} (l : Node A) (e : A) (r : Node A)
      → Holds xs l
      → Holds ys r
      → Holds (xs ++ e ∷ ys) (rebalance_left B l e r)
  unfolding rebalance_left
  rebalance_left-Holds l e r hl hr =
      if-both (Holds _) (is_left_heavy l r)
        (if-both (Holds _) (is_single_rotation l true) (rotate_right-Holds l e r hl hr) (
          if-both (Holds _) (is_compressed (right_child l))
            (make_compressed_only-Holds _ (update-Holds l e r hl hr))
            (double_rotate_right-Holds l e r hl hr)))
        (update-Holds l e r hl hr)

  right_join-Holds :
      {xs ys : List A} (t1 t2 : Node A) (k : A)
      → Holds xs t1
      → Holds ys t2
      → Holds (xs ++ k ∷ ys) (right_join B t1 t2 k)
  unfolding right_join
  right_join-Holds empty t2 k h1 h2 = balanced_join-Holds empty t2 k h1 h2
  right_join-Holds (compressed es) t2 k h1 h2 = make_compressed-Holds B _ k t2 pos h1 h2
  right_join-Holds {xs = xs} {ys = ys} (regular s l e r) t2 k h1 h2 =
      let deeper =
        right_join-Holds {xs = entries r} {ys = ys} r t2 k (Holds-self r h1.sized.1) h2 in
      if-both (Holds _) (not (is_left_heavy (regular s l e r) t2))
        (balanced_join-Holds _ t2 k h1 h2)
        (if-both (Holds _) (will_be_compressed B ((size (regular s l e r) + size t2 + 1) % u32_mod))
          (make_compressed-Holds B _ k t2 pos h1 h2)
          (rw (← h1.held, regroup (entries l) e (entries r) k ys)
            (rebalance_right-Holds l e _ (Holds-self l h1.sized.0) deeper)))

  left_join-Holds :
      {xs ys : List A} (t1 t2 : Node A) (k : A)
      → Holds xs t1
      → Holds ys t2
      → Holds (xs ++ k ∷ ys) (left_join B t1 t2 k)
  unfolding left_join
  left_join-Holds t1 empty k h1 h2 = balanced_join-Holds t1 empty k h1 h2
  left_join-Holds t1 (compressed es) k h1 h2 = make_compressed-Holds B t1 k _ pos h1 h2
  left_join-Holds {xs = xs} {ys = ys} t1 (regular s l e r) k h1 h2 =
      let deeper = left_join-Holds {xs = xs} {ys = entries l} t1 l k h1 (Holds-self l h2.sized.0) in
      if-both (Holds _) (not (is_left_heavy (regular s l e r) t1))
        (balanced_join-Holds t1 _ k h1 h2)
        (if-both (Holds _) (will_be_compressed B (size t1 + size (regular s l e r) + 1))
          (make_compressed-Holds B t1 k _ pos h1 h2)
          (rw (← h2.held, ← regroup xs k (entries l) e (entries r))
            (rebalance_left-Holds _ e r deeper (Holds-self r h2.sized.1))))

  regular_join-Holds :
      {xs ys : List A} (t1 t2 : Node A) (k : A)
      → Holds xs t1
      → Holds ys t2
      → Holds (xs ++ k ∷ ys) (regular_join B t1 t2 k)
  unfolding regular_join
  regular_join-Holds t1 t2 k h1 h2 =
      let tot = (size t1 + size t2 + 1) % u32_mod in
      if-both (Holds _) (leb B tot && leb tot (upper_threshold B))
        (make_compressed-Holds B t1 k t2 pos h1 h2)
        (if-both (Holds _) (is_left_heavy t1 t2) (right_join-Holds t1 t2 k h1 h2) (
          if-both (Holds _) (is_left_heavy t2 t1) (left_join-Holds t1 t2 k h1 h2)
            (balanced_join-Holds t1 t2 k h1 h2)))

  -- For blocks of a positive size B and trees with right size fields (modulo 2 ^ 32): `node_join`
  -- returns a tree with right size fields that holds the entries of t1, then k, then those of t2,
  -- for all shapes and weights of its arguments.
  pub node_join-Holds :
      {xs ys : List A} (t1 t2 : Node A) (k : A)
      → Holds xs t1
      → Holds ys t2
      → Holds (xs ++ k ∷ ys) (node_join B t1 t2 k)
  unfolding node_join join_regular_compressed join_compressed_regular join_compressed
  node_join-Holds t1 t2 k h1 h2 =
      let blocks = make_compressed-Holds B t1 k t2 pos h1 h2 in
      let balanced = balanced_join-Holds t1 t2 k h1 h2 in
      if-both (Holds _) (is_regular t1 && is_regular t2) (regular_join-Holds t1 t2 k h1 h2) (
        if-both (Holds _) (is_regular t1)
          (if-both (Holds _) (is_left_heavy t1 t2) (right_join-Holds t1 t2 k h1 h2)
            (if-both (Holds _) (is_left_heavy t2 t1) blocks balanced))
          (if-both (Holds _) (is_regular t2)
            (if-both (Holds _) (is_left_heavy t2 t1) (left_join-Holds t1 t2 k h1 h2)
              (if-both (Holds _) (is_left_heavy t1 t2) blocks balanced))
            (if-both (Holds _)
              (not (is_left_heavy t1 t2 || is_left_heavy t2 t1) || not (could_single_rotate t1 t2))
              balanced blocks)))
