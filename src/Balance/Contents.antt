-- ===== src/Balance/Contents.antt =====
-- The rotations and joins keep the entries in order and the size fields right.
use cpam.Base.{ℕ, ◌≡◌, true, false, not, List, ◌∷◌, ◌++◌, if-both, append_assoc}
use cpam.Node.{Node, regular, update}
use cpam.Node.Iterate.{entries}
use cpam.Node.Contents.{Holds, update-Holds, Holds-self}
use cpam.Balance.{
  is_left_heavy, is_single_rotation, rotate_right, rotate_left, double_rotate_right,
  double_rotate_left, regular_rebalance_right, regular_rebalance_left, regular_balanced_join,
  regular_right_join, regular_left_join, regular_node_join,
}

module _ {ℓ} {A : Type ℓ} where
  -- The same tree with its entries bracketed otherwise.
  pub regroup :
      (xs : List A) (x : A) (ys : List A) (y : A) (zs : List A)
      → (xs ++ x ∷ ys) ++ y ∷ zs ≡ xs ++ x ∷ (ys ++ y ∷ zs)
  regroup xs x ys y zs = append_assoc xs (x ∷ ys) (y ∷ zs)

  -- The old size field of the child that moves up is not read.
  turn_left :
      {xs ys zs : List A} (s : ℕ) (l : Node A) (e : A) (rl : Node A) (re : A) (rr : Node A)
      → Holds xs l
      → Holds ys rl
      → Holds zs rr
      → Holds (xs ++ e ∷ (ys ++ re ∷ zs)) (rotate_left l e (regular s rl re rr))
  unfolding rotate_left
  turn_left {xs} {ys} {zs} s l e rl re rr h k m =
      rw (← regroup xs e ys re zs) (update-Holds _ re rr (update-Holds l e rl h k) m)

  turn_right :
      {xs ys zs : List A} (s : ℕ) (ll : Node A) (le : A) (lr : Node A) (e : A) (r : Node A)
      → Holds xs ll
      → Holds ys lr
      → Holds zs r
      → Holds ((xs ++ le ∷ ys) ++ e ∷ zs) (rotate_right (regular s ll le lr) e r)
  unfolding rotate_right
  turn_right {xs} {ys} {zs} s ll le lr e r h k m =
      rw (regroup xs le ys e zs) (update-Holds ll le _ h (update-Holds lr e r k m))

  pub rotate_left-Holds :
      {xs ys : List A} (l : Node A) (e : A) (r : Node A)
      → Holds xs l
      → Holds ys r
      → Holds (xs ++ e ∷ ys) (rotate_left l e r)
  unfolding rotate_left
  rotate_left-Holds l e (regular s rl re rr) hl hr =
      rw (← hr.held)
        (turn_left s l e rl re rr hl (Holds-self rl hr.sized.0) (Holds-self rr hr.sized.1))
  rotate_left-Holds l e r hl hr = update-Holds l e r hl hr

  pub rotate_right-Holds :
      {xs ys : List A} (l : Node A) (e : A) (r : Node A)
      → Holds xs l
      → Holds ys r
      → Holds (xs ++ e ∷ ys) (rotate_right l e r)
  unfolding rotate_right
  rotate_right-Holds (regular s ll le lr) e r hl hr =
      rw (← hl.held)
        (turn_right s ll le lr e r (Holds-self ll hl.sized.0) (Holds-self lr hl.sized.1) hr)
  rotate_right-Holds l e r hl hr = update-Holds l e r hl hr

  pub double_rotate_left-Holds :
      {xs ys : List A} (l : Node A) (e : A) (r : Node A)
      → Holds xs l
      → Holds ys r
      → Holds (xs ++ e ∷ ys) (double_rotate_left l e r)
  unfolding double_rotate_left
  double_rotate_left-Holds l e (regular s (regular s' a x b) y c) hl hr =
      let (ha, hb, _) = hr.sized.0 in
      let hbc = update-Holds b y c (Holds-self b hb) (Holds-self c hr.sized.1) in
      rw (← hr.held, regroup (entries a) x (entries b) y (entries c))
        (turn_left s' l e a x (update b y c) hl (Holds-self a ha) hbc)
  double_rotate_left-Holds l e r hl hr = update-Holds l e r hl hr

  pub double_rotate_right-Holds :
      {xs ys : List A} (l : Node A) (e : A) (r : Node A)
      → Holds xs l
      → Holds ys r
      → Holds (xs ++ e ∷ ys) (double_rotate_right l e r)
  unfolding double_rotate_right
  double_rotate_right-Holds (regular s a x (regular s' b y c)) e r hl hr =
      let (hb, hc, _) = hl.sized.1 in
      let hab = update-Holds a x b (Holds-self a hl.sized.0) (Holds-self b hb) in
      rw (← hl.held, ← regroup (entries a) x (entries b) y (entries c))
        (turn_right s' (update a x b) y c e r hab (Holds-self c hc) hr)
  double_rotate_right-Holds l e r hl hr = update-Holds l e r hl hr

  regular_rebalance_right-Holds :
      {xs ys : List A} (l : Node A) (e : A) (r : Node A)
      → Holds xs l
      → Holds ys r
      → Holds (xs ++ e ∷ ys) (regular_rebalance_right l e r)
  unfolding regular_rebalance_right
  regular_rebalance_right-Holds l e r hl hr =
      if-both (Holds _) (is_left_heavy r l)
        (if-both (Holds _) (is_single_rotation r false) (rotate_left-Holds l e r hl hr)
          (double_rotate_left-Holds l e r hl hr))
        (update-Holds l e r hl hr)

  regular_rebalance_left-Holds :
      {xs ys : List A} (l : Node A) (e : A) (r : Node A)
      → Holds xs l
      → Holds ys r
      → Holds (xs ++ e ∷ ys) (regular_rebalance_left l e r)
  unfolding regular_rebalance_left
  regular_rebalance_left-Holds l e r hl hr =
      if-both (Holds _) (is_left_heavy l r)
        (if-both (Holds _) (is_single_rotation l true) (rotate_right-Holds l e r hl hr)
          (double_rotate_right-Holds l e r hl hr))
        (update-Holds l e r hl hr)

  pub regular_right_join-Holds :
      {xs ys : List A} (t1 t2 : Node A) (k : A)
      → Holds xs t1
      → Holds ys t2
      → Holds (xs ++ k ∷ ys) (regular_right_join t1 t2 k)
  unfolding regular_right_join regular_balanced_join
  regular_right_join-Holds {xs = xs} {ys = ys} (regular s l e r) t2 k h1 h2 =
      let deeper =
        regular_right_join-Holds {xs = entries r} {ys = ys} r t2 k (Holds-self r h1.sized.1) h2 in
      if-both (Holds _) (not (is_left_heavy (regular s l e r) t2)) (update-Holds _ k t2 h1 h2) (
        rw (← h1.held, regroup (entries l) e (entries r) k ys)
          (regular_rebalance_right-Holds l e _ (Holds-self l h1.sized.0) deeper))
  regular_right_join-Holds t1 t2 k h1 h2 = update-Holds t1 k t2 h1 h2

  pub regular_left_join-Holds :
      {xs ys : List A} (t1 t2 : Node A) (k : A)
      → Holds xs t1
      → Holds ys t2
      → Holds (xs ++ k ∷ ys) (regular_left_join t1 t2 k)
  unfolding regular_left_join regular_balanced_join
  regular_left_join-Holds {xs = xs} {ys = ys} t1 (regular s l e r) k h1 h2 =
      let deeper =
        regular_left_join-Holds {xs = xs} {ys = entries l} t1 l k h1 (Holds-self l h2.sized.0) in
      if-both (Holds _) (not (is_left_heavy (regular s l e r) t1)) (update-Holds t1 k _ h1 h2) (
        rw (← h2.held, ← regroup xs k (entries l) e (entries r))
          (regular_rebalance_left-Holds _ e r deeper (Holds-self r h2.sized.1)))
  regular_left_join-Holds t1 t2 k h1 h2 = update-Holds t1 k t2 h1 h2

  -- For trees with right size fields `regular_node_join`, the join without blocks, returns a tree
  -- with right size fields that holds the entries of t1, then k, then those of t2.
  pub regular_node_join-Holds :
      {xs ys : List A} (t1 t2 : Node A) (k : A)
      → Holds xs t1
      → Holds ys t2
      → Holds (xs ++ k ∷ ys) (regular_node_join t1 t2 k)
  unfolding regular_node_join regular_balanced_join
  regular_node_join-Holds t1 t2 k h1 h2 =
      if-both (Holds _) (is_left_heavy t1 t2) (regular_right_join-Holds t1 t2 k h1 h2) (
        if-both (Holds _) (is_left_heavy t2 t1) (regular_left_join-Holds t1 t2 k h1 h2)
          (update-Holds t1 k t2 h1 h2))
