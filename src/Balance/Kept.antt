-- ===== src/Balance/Kept.antt =====
-- The join without blocks of balanced trees is balanced.
use cpam.Base.{
  suc, ◌+◌, ◌*◌, ◌<◌, ◌≤◌, ◌≡◌, ap, ◌∙◌, ◌∷◌, ◌++◌, length, if-split, arith, u32_mod, Bool-cases,
  inl, inr,
}
use cpam.Node.{Node, empty, regular, compressed, update}
use cpam.Node.Iterate.{entries}
use cpam.Node.Contents.{IsSized, Holds, Holds-self}
use cpam.Balance.{
  is_left_heavy, regular_balanced_join, regular_right_join, regular_left_join, regular_node_join,
}
use cpam.Balance.Contents.{regular_right_join-Holds, regular_left_join-Holds}
use cpam.Balance.Weights.{IsOutgrown}
use cpam.Balance.Balanced.{
  entries_weight, IsBalanced, node_weight, heavier, no_heavier, rebalanced_right, rebalanced_left,
}

module _ {ℓ} {A : Type ℓ} where
  joined_weight :
      (t t1 t2 : Node A) (k : A)
      → Holds (entries t1 ++ k ∷ entries t2) t
      → entries_weight t ≡ entries_weight t1 + entries_weight t2
  joined_weight t t1 t2 k h = ap (λ es. suc (length es)) (h.held) ∙ node_weight t1 k t2

  update-IsBalanced :
      (l : Node A) (e : A) (r : Node A)
      → IsBalanced l
      → IsBalanced r
      → 29 * entries_weight l ≤ 71 * entries_weight r
      → 29 * entries_weight r ≤ 71 * entries_weight l
      → IsBalanced (update l e r)
  unfolding update
  update-IsBalanced l e r bl br hl hr = (bl, br, record { left_light = hl; right_light = hr })

  regular_right_join-IsBalanced :
      (t1 t2 : Node A) (k : A)
      → IsSized t1
      → IsSized t2
      → IsBalanced t1
      → IsBalanced t2
      → entries_weight t1 + entries_weight t2 < u32_mod
      → 29 * entries_weight t2 ≤ 71 * entries_weight t1
      → IsBalanced (regular_right_join t1 t2 k)
  unfolding regular_right_join regular_balanced_join
  regular_right_join-IsBalanced empty t2 k h1 h2 b1 b2 small light =
      update-IsBalanced empty k t2 b1 b2 (omega arith) light
  regular_right_join-IsBalanced (compressed es) t2 k h1 h2 b1 b2 small light = absurd b1
  regular_right_join-IsBalanced (regular s l e r) t2 k h1 h2 b1 b2 small light =
      let t1 = regular s l e r in
      let (bl, br, even) = b1 in
      let whole = node_weight l e r in
      elim (Bool-cases (is_left_heavy t1 t2)) [
        | inr le ↦ rw le (update-IsBalanced t1 k t2 b1 b2 (no_heavier t1 t2 h1 h2 small le) light)
        | inl heavy ↦
            let much = heavier t1 t2 h1 h2 small heavy in
            let joined = regular_right_join-Holds r t2 k (Holds-self r (h1.1)) (Holds-self t2 h2) in
            let weight_of = joined_weight _ r t2 k joined in
            let deeper =
              regular_right_join-IsBalanced r t2 k (h1.1) h2 br b2 (omega arith)
                (omega (arith, whole, much, even.left_light)) in
            let grown : IsOutgrown (entries_weight l) (entries_weight (regular_right_join r t2 k)) =
              record {
                old = entries_weight r;
                more = entries_weight t2;
                whole = weight_of;
                old_light = even.right_light;
                more_light = omega (arith, whole, much);
              } in
            rw heavy (
              rebalanced_right l e (regular_right_join r t2 k) (h1.0) (joined.sized) bl deeper
                (omega (arith, whole, weight_of)) (omega (arith, weight_of, even.left_light)) grown)
      ]

  regular_left_join-IsBalanced :
      (t1 t2 : Node A) (k : A)
      → IsSized t1
      → IsSized t2
      → IsBalanced t1
      → IsBalanced t2
      → entries_weight t1 + entries_weight t2 < u32_mod
      → 29 * entries_weight t1 ≤ 71 * entries_weight t2
      → IsBalanced (regular_left_join t1 t2 k)
  unfolding regular_left_join regular_balanced_join
  regular_left_join-IsBalanced t1 empty k h1 h2 b1 b2 small light =
      update-IsBalanced t1 k empty b1 b2 light (omega arith)
  regular_left_join-IsBalanced t1 (compressed es) k h1 h2 b1 b2 small light = absurd b2
  regular_left_join-IsBalanced t1 (regular s l e r) k h1 h2 b1 b2 small light =
      let t2 = regular s l e r in
      let (bl, br, even) = b2 in
      let whole = node_weight l e r in
      elim (Bool-cases (is_left_heavy t2 t1)) [
        | inr le ↦
            rw le (update-IsBalanced t1 k t2 b1 b2 light (no_heavier t2 t1 h2 h1 (omega arith) le))
        | inl heavy ↦
            let much = heavier t2 t1 h2 h1 (omega arith) heavy in
            let joined = regular_left_join-Holds t1 l k (Holds-self t1 h1) (Holds-self l (h2.0)) in
            let weight_of = joined_weight _ t1 l k joined in
            let deeper =
              regular_left_join-IsBalanced t1 l k h1 (h2.0) b1 bl (omega arith)
                (omega (arith, whole, much, even.right_light)) in
            let grown : IsOutgrown (entries_weight r) (entries_weight (regular_left_join t1 l k)) =
              record {
                old = entries_weight l;
                more = entries_weight t1;
                whole = omega (arith, weight_of);
                old_light = even.left_light;
                more_light = omega (arith, whole, much);
              } in
            rw heavy (
              rebalanced_left (regular_left_join t1 l k) e r (joined.sized) (h2.1) deeper br
                (omega (arith, whole, weight_of)) (omega (arith, weight_of, even.right_light))
                grown)
      ]

  -- For trees without blocks, with right size fields and at most 2 ^ 32 - 3 entries in all, in
  -- which no child of a node is too heavy for the other (0.29 : 0.71): `regular_node_join` returns
  -- such a balanced tree, for all weights of its arguments.
  pub regular_node_join-IsBalanced :
      (t1 t2 : Node A) (k : A)
      → IsSized t1
      → IsSized t2
      → IsBalanced t1
      → IsBalanced t2
      → entries_weight t1 + entries_weight t2 < u32_mod
      → IsBalanced (regular_node_join t1 t2 k)
  unfolding regular_node_join regular_balanced_join
  regular_node_join-IsBalanced t1 t2 k h1 h2 b1 b2 small =
      if-split IsBalanced (is_left_heavy t1 t2)
        (λ h.
          regular_right_join-IsBalanced t1 t2 k h1 h2 b1 b2 small
            (omega (arith, heavier t1 t2 h1 h2 small h)))
        λ not_left.
          if-split IsBalanced (is_left_heavy t2 t1)
            (λ h.
              regular_left_join-IsBalanced t1 t2 k h1 h2 b1 b2 small
                (omega (arith, heavier t2 t1 h2 h1 (omega arith) h)))
            λ not_right.
              update-IsBalanced t1 k t2 b1 b2 (no_heavier t1 t2 h1 h2 small not_left)
                (no_heavier t2 t1 h2 h1 (omega arith) not_right)
