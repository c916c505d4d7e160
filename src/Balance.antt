-- ===== src/Balance.antt =====
-- include/cpam/weight_balanced_tree.h and include/cpam/balance_utils.h: weights, rotations and the
-- join of two trees around an entry. The balance tests compare doubles, `ratio * weight(t1) >
-- weight(t2)` with ratio = 0.29 / 0.71 and `balance <= beta * weight(t)` with beta = 0.42 / 0.71;
-- they are cross-multiplied here, which agrees on all weights that fit 32 bits. Where the code casts
-- a tree that is not a regular node (the asserts rule it out), no rotation is made.
pub mod Balanced
pub mod Contents
pub mod Join
pub mod Kept
pub mod Shape
pub mod Weights
use cpam.Base.{
  ℕ, ◌+◌, ◌*◌, ◌/◌, ◌%◌, Bool, true, false, ◌&&◌, ◌||◌, not, Option, none, some, List, ltb, leb,
  if◌then◌else◌, u32_mod,
}
use cpam.Node.{
  Node, empty, regular, compressed, size, update, is_compressed, is_regular, will_be_compressed,
}
use cpam.Node.Blocks.{make_compressed}

module _ {ℓ} {A : Type ℓ} where
  -- `size(t) + 1` is computed on 32 bits before it becomes a double.
  unfoldable pub weight : Node A → ℕ
  weight t = (size t + 1) % u32_mod

  unfoldable pub is_left_heavy : Node A → Node A → Bool
  is_left_heavy t1 t2 = ltb (71 * weight t2) (29 * weight t1)

  -- `dir` chooses the right child.
  unfoldable pub is_single_rotation : Node A → Bool → Bool
  is_single_rotation (regular s l e r) dir =
      leb (71 * (if dir then weight r else weight l)) (42 * weight (regular s l e r))
  is_single_rotation _ dir = true

  unfoldable pub could_single_rotate : Node A → Node A → Bool
  could_single_rotate lc rc =
      let tot = (size lc + size rc + 1 + 1) % u32_mod in
      leb (71 * weight lc) (42 * tot) && leb (71 * weight rc) (42 * tot)

  unfoldable pub is_balanced : Node A → Bool
  is_balanced (regular s l e r) = not (is_left_heavy l r || is_left_heavy r l)
  is_balanced _ = true

  -- The rotations take the fields of t; its old size field is not read.
  unfoldable pub rotate_right : Node A → A → Node A → Node A
  rotate_right (regular s ll le lr) e r = update ll le (update lr e r)
  rotate_right l e r = update l e r

  unfoldable pub rotate_left : Node A → A → Node A → Node A
  rotate_left l e (regular s rl re rr) = update (update l e rl) re rr
  rotate_left l e r = update l e r

  unfoldable pub double_rotate_right : Node A → A → Node A → Node A
  double_rotate_right (regular s a x (regular s' b y c)) e r =
      rotate_right (regular s' (update a x b) y c) e r
  double_rotate_right l e r = update l e r

  unfoldable pub double_rotate_left : Node A → A → Node A → Node A
  double_rotate_left l e (regular s (regular s' a x b) y c) =
      rotate_left l e (regular s' a x (update b y c))
  double_rotate_left l e r = update l e r

  -- The end of `regular_right_join`, once the right child is replaced.
  unfoldable pub regular_rebalance_right : Node A → A → Node A → Node A
  regular_rebalance_right l e r =
      if is_left_heavy r l
      then (if is_single_rotation r false then rotate_left l e r else double_rotate_left l e r)
      else update l e r

  unfoldable pub regular_rebalance_left : Node A → A → Node A → Node A
  regular_rebalance_left l e r =
      if is_left_heavy l r
      then (if is_single_rotation l true then rotate_right l e r else double_rotate_right l e r)
      else update l e r

  unfoldable pub regular_balanced_join : Node A → Node A → A → Node A
  regular_balanced_join l r e = update l e r

  unfoldable pub regular_right_join : Node A → Node A → A → Node A
  regular_right_join (regular s l e r) t2 k =
      let deeper = regular_rebalance_right l e (regular_right_join r t2 k) in
      if not (is_left_heavy (regular s l e r) t2)
      then regular_balanced_join (regular s l e r) t2 k
      else deeper
  regular_right_join t1 t2 k = regular_balanced_join t1 t2 k

  unfoldable pub regular_left_join : Node A → Node A → A → Node A
  regular_left_join t1 (regular s l e r) k =
      let deeper = regular_rebalance_left (regular_left_join t1 l k) e r in
      if not (is_left_heavy (regular s l e r) t1)
      then regular_balanced_join t1 (regular s l e r) k
      else deeper
  regular_left_join t1 t2 k = regular_balanced_join t1 t2 k

  unfoldable pub regular_node_join : Node A → Node A → A → Node A
  regular_node_join t1 t2 k =
      if is_left_heavy t1 t2
      then regular_right_join t1 t2 k
      else if is_left_heavy t2 t1
      then regular_left_join t1 t2 k
      else regular_balanced_join t1 t2 k

  abbrev pub left_child : Node A → Node A
  left_child (regular s l e r) = l
  left_child t = empty

  abbrev pub right_child : Node A → Node A
  right_child (regular s l e r) = r
  right_child t = empty

-- `upper_threshold` of `regular_join`: ceil(B * (1 + 1 / wb_ratio)) = ceil(100 * B / 29).
abbrev pub upper_threshold : ℕ → ℕ
upper_threshold B = (100 * B + 28) / 29

-- The joins of trees with blocks of B to 2 * B entries.
module _ {ℓ} {A : Type ℓ} (B : ℕ) where
  unfoldable pub balanced_join : Node A → Node A → A → Node A
  balanced_join l r e =
      let tot = size l + size r + 1 in
      if (ltb (size l) B || ltb (size r) B) && leb B tot
      then make_compressed B l r (some e)
      else update l e r

  unfoldable pub rebalance_right : Node A → A → Node A → Node A
  rebalance_right l e r =
      if is_left_heavy r l
      then (if is_single_rotation r false
          then rotate_left l e r
          else if is_compressed (left_child r)
          then make_compressed B (update l e r) empty none
          else double_rotate_left l e r)
      else update l e r

  unfoldable pub rebalance_left : Node A → A → Node A → Node A
  rebalance_left l e r =
      if is_left_heavy l r
      then (if is_single_rotation l true
          then rotate_right l e r
          else if is_compressed (right_child l)
          then make_compressed B (update l e r) empty none
          else double_rotate_right l e r)
      else update l e r

  -- A null t1 has weight 1, and is not the heavy one.
  unfoldable pub right_join : Node A → Node A → A → Node A
  right_join empty t2 k = balanced_join empty t2 k
  right_join (compressed es) t2 k = make_compressed B (compressed es) t2 (some k)
  right_join (regular s l e r) t2 k =
      let t1 = regular s l e r in
      let deeper = rebalance_right l e (right_join r t2 k) in
      if not (is_left_heavy t1 t2)
      then balanced_join t1 t2 k
      else if will_be_compressed B ((size t1 + size t2 + 1) % u32_mod)
      then make_compressed B t1 t2 (some k)
      else deeper

  -- Unlike `right_join`, the total is computed on size_t.
  unfoldable pub left_join : Node A → Node A → A → Node A
  left_join t1 empty k = balanced_join t1 empty k
  left_join t1 (compressed es) k = make_compressed B t1 (compressed es) (some k)
  left_join t1 (regular s l e r) k =
      let t2 = regular s l e r in
      let deeper = rebalance_left (left_join t1 l k) e r in
      if not (is_left_heavy t2 t1)
      then balanced_join t1 t2 k
      else if will_be_compressed B (size t1 + size t2 + 1)
      then make_compressed B t1 t2 (some k)
      else deeper

  unfoldable pub regular_join : Node A → Node A → A → Node A
  regular_join t1 t2 k =
      let tot = (size t1 + size t2 + 1) % u32_mod in
      if leb B tot && leb tot (upper_threshold B)
      then make_compressed B t1 t2 (some k)
      else if is_left_heavy t1 t2
      then right_join t1 t2 k
      else if is_left_heavy t2 t1
      then left_join t1 t2 k
      else balanced_join t1 t2 k

  -- `node_join`, where t1 is regular and t2 compressed.
  unfoldable pub join_regular_compressed : Node A → Node A → A → Node A
  join_regular_compressed t1 t2 k =
      if is_left_heavy t1 t2
      then right_join t1 t2 k
      else if is_left_heavy t2 t1
      then make_compressed B t1 t2 (some k)
      else balanced_join t1 t2 k

  -- `node_join`, where t1 is compressed and t2 regular.
  unfoldable pub join_compressed_regular : Node A → Node A → A → Node A
  join_compressed_regular t1 t2 k =
      if is_left_heavy t2 t1
      then left_join t1 t2 k
      else if is_left_heavy t1 t2
      then make_compressed B t1 t2 (some k)
      else balanced_join t1 t2 k

  -- `node_join`, where both are compressed.
  unfoldable pub join_compressed : Node A → Node A → A → Node A
  join_compressed t1 t2 k =
      let balanced = not (is_left_heavy t1 t2 || is_left_heavy t2 t1) in
      if balanced || not (could_single_rotate t1 t2)
      then balanced_join t1 t2 k
      else make_compressed B t1 t2 (some k)

  unfoldable pub node_join : Node A → Node A → A → Node A
  node_join t1 t2 k =
      if is_regular t1 && is_regular t2
      then regular_join t1 t2 k
      else if is_regular t1
      then join_regular_compressed t1 t2 k
      else if is_regular t2
      then join_compressed_regular t1 t2 k
      else join_compressed t1 t2 k
