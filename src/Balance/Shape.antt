-- ===== src/Balance/Shape.antt =====
-- The join without blocks yields a regular node: its root can be exposed.
use cpam.Base.{true, false, not, if-both}
use cpam.Node.{Node, regular, update}
use cpam.Balance.{
  is_left_heavy, is_single_rotation, rotate_right, rotate_left, double_rotate_right,
  double_rotate_left, regular_rebalance_right, regular_rebalance_left, regular_balanced_join,
  regular_right_join, regular_left_join, regular_node_join,
}

module _ {ℓ} {A : Type ℓ} where
  abbrev pub IsNode : Node A → Type 0
  IsNode (regular s l e r) = Unit
  IsNode t = ⊥

  update-IsNode : (l : Node A) (e : A) (r : Node A) → IsNode (update l e r)
  unfolding update
  update-IsNode l e r = tt

  rotate_left-IsNode : (l : Node A) (e : A) (r : Node A) → IsNode (rotate_left l e r)
  unfolding rotate_left
  rotate_left-IsNode l e (regular s rl re rr) = update-IsNode _ re rr
  rotate_left-IsNode l e r = update-IsNode l e r

  rotate_right-IsNode : (l : Node A) (e : A) (r : Node A) → IsNode (rotate_right l e r)
  unfolding rotate_right
  rotate_right-IsNode (regular s ll le lr) e r = update-IsNode ll le _
  rotate_right-IsNode l e r = update-IsNode l e r

  double_rotate_left-IsNode : (l : Node A) (e : A) (r : Node A) → IsNode (double_rotate_left l e r)
  unfolding double_rotate_left
  double_rotate_left-IsNode l e (regular s (regular s' a x b) y c) = rotate_left-IsNode l e _
  double_rotate_left-IsNode l e r = update-IsNode l e r

  double_rotate_right-IsNode :
      (l : Node A) (e : A) (r : Node A) → IsNode (double_rotate_right l e r)
  unfolding double_rotate_right
  double_rotate_right-IsNode (regular s a x (regular s' b y c)) e r = rotate_right-IsNode _ e r
  double_rotate_right-IsNode l e r = update-IsNode l e r

  regular_right_join-IsNode : (t1 t2 : Node A) (k : A) → IsNode (regular_right_join t1 t2 k)
  unfolding regular_right_join regular_balanced_join regular_rebalance_right
  regular_right_join-IsNode (regular s l e r) t2 k =
      let rest = regular_right_join r t2 k in
      if-both IsNode (not (is_left_heavy (regular s l e r) t2)) (update-IsNode _ k t2) (
        if-both IsNode (is_left_heavy rest l)
          (if-both IsNode (is_single_rotation rest false) (rotate_left-IsNode l e rest)
            (double_rotate_left-IsNode l e rest))
          (update-IsNode l e rest))
  regular_right_join-IsNode t1 t2 k = update-IsNode t1 k t2

  regular_left_join-IsNode : (t1 t2 : Node A) (k : A) → IsNode (regular_left_join t1 t2 k)
  unfolding regular_left_join regular_balanced_join regular_rebalance_left
  regular_left_join-IsNode t1 (regular s l e r) k =
      let rest = regular_left_join t1 l k in
      if-both IsNode (not (is_left_heavy (regular s l e r) t1)) (update-IsNode t1 k _) (
        if-both IsNode (is_left_heavy rest r)
          (if-both IsNode (is_single_rotation rest true) (rotate_right-IsNode rest e r)
            (double_rotate_right-IsNode rest e r))
          (update-IsNode rest e r))
  regular_left_join-IsNode t1 t2 k = update-IsNode t1 k t2

  pub regular_node_join-IsNode : (t1 t2 : Node A) (k : A) → IsNode (regular_node_join t1 t2 k)
  unfolding regular_node_join regular_balanced_join
  regular_node_join-IsNode t1 t2 k =
      if-both IsNode (is_left_heavy t1 t2) (regular_right_join-IsNode t1 t2 k) (
        if-both IsNode (is_left_heavy t2 t1) (regular_left_join-IsNode t1 t2 k)
          (update-IsNode t1 k t2))
