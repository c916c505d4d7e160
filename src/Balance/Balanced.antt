-- ===== src/Balance/Balanced.antt =====
-- The join without blocks keeps every node balanced by weight.
use cpam.Base.{
  ℕ, suc, ◌+◌, ◌*◌, ◌<◌, ◌≤◌, ◌≡◌, refl, sym, true, false, ◌∷◌, ◌++◌, ltb, leb, ltb→lt,
  if◌then◌else◌, ◌∙◌, length, length-append, if-split, arith, u32_mod,
}
use native.Mathlib.Nat.{add_comm}
use cpam.Node.{Node, empty, regular, compressed, update}
use cpam.Node.Iterate.{entries}
use cpam.Node.Contents.{IsSized, size-IsSized}
use cpam.Balance.{
  weight, is_left_heavy, is_single_rotation, rotate_right, rotate_left, double_rotate_right,
  double_rotate_left, regular_rebalance_right, regular_rebalance_left,
}
use cpam.Balance.Weights.{
  IsEven, IsEven-sym, IsOutgrown, single_inner, single_outer, double_left, double_right,
  double_root,
}

module _ {ℓ} {A : Type ℓ} where
  -- The weight that a tree with right size fields has, as a number without bounds.
  abbrev pub entries_weight : Node A → ℕ
  entries_weight t = suc (length (entries t))

  -- No child of a node is too heavy for the other, and there is no block.
  abbrev pub IsBalanced : Node A → Type 0
  IsBalanced empty = Unit
  IsBalanced (regular s l e r) =
      IsBalanced l × IsBalanced r × IsEven (entries_weight l) (entries_weight r)
  IsBalanced (compressed es) = ⊥

  weight-IsSized :
      (t : Node A) → IsSized t → entries_weight t < u32_mod → weight t ≡ entries_weight t
  unfolding weight
  weight-IsSized t sized small = omega (arith, size-IsSized t sized)

  -- What the test of the code says of the weights.
  module _ (t1 t2 : Node A) (h1 : IsSized t1) (h2 : IsSized t2)
      (small : entries_weight t1 + entries_weight t2 < u32_mod) where
    tested : is_left_heavy t1 t2 ≡ ltb (71 * entries_weight t2) (29 * entries_weight t1)
    unfolding is_left_heavy
    tested = rw (weight-IsSized t1 h1 (omega arith), weight-IsSized t2 h2 (omega arith)) refl

    pub heavier : is_left_heavy t1 t2 ≡ true → 71 * entries_weight t2 < 29 * entries_weight t1
    heavier h = ltb→lt _ _ (sym tested ∙ h)

    pub no_heavier : is_left_heavy t1 t2 ≡ false → 29 * entries_weight t1 ≤ 71 * entries_weight t2
    no_heavier h =
        let test : ltb (71 * entries_weight t2) (29 * entries_weight t1) ≡ false = sym tested ∙ h in
        ground arith

  pub node_weight :
      (l : Node A) (e : A) (r : Node A)
      → suc (length (entries l ++ e ∷ entries r)) ≡ entries_weight l + entries_weight r
  node_weight l e r = omega (arith, length-append (entries l) (e ∷ entries r))

  -- Once the right child has outgrown the left one by a join.
  rotated_left :
      (s : ℕ) (l : Node A) (e : A) (rl : Node A) (re : A) (rr : Node A)
      → IsBalanced l
      → IsBalanced (regular s rl re rr)
      → IsOutgrown (entries_weight l) (entries_weight rl + entries_weight rr)
      → 71 * entries_weight l < 29 * (entries_weight rl + entries_weight rr)
      → 71 * entries_weight rl ≤ 42 * (entries_weight rl + entries_weight rr)
      → IsBalanced (rotate_left l e (regular s rl re rr))
  unfolding rotate_left update
  rotated_left s l e rl re rr bl (brl, brr, even) grown heavy small = (
    (bl, brl, single_inner _ _ _ grown heavy even small),
    brr,
    rw (node_weight l e rl) (single_outer _ _ _ heavy even small),
  )

  double_rotated_left :
      (s : ℕ) (l : Node A) (e : A) (rl : Node A) (re : A) (rr : Node A)
      → IsBalanced l
      → IsBalanced (regular s rl re rr)
      → IsOutgrown (entries_weight l) (entries_weight rl + entries_weight rr)
      → 71 * entries_weight l < 29 * (entries_weight rl + entries_weight rr)
      → 42 * (entries_weight rl + entries_weight rr) < 71 * entries_weight rl
      → IsBalanced (double_rotate_left l e (regular s rl re rr))
  unfolding double_rotate_left rotate_left update
  double_rotated_left s l e empty re rr bl br grown heavy great = absurd (omega arith)
  double_rotated_left s l e (compressed es) re rr bl (block, _, _) grown heavy great = absurd block
  double_rotated_left s l e (regular s' a x b) re rr bl ((ba, bb, inner), brr, outer) grown heavy
        great =
      let W = λ (t : Node A). entries_weight t in
      let grown' : IsOutgrown (W l) (W a + W b + W rr) = rw (node_weight a x b) at grown in
      let heavy' : 71 * W l < 29 * (W a + W b + W rr) = rw (node_weight a x b) at heavy in
      let great' : 42 * (W a + W b + W rr) < 71 * (W a + W b) = rw (node_weight a x b) at great in
      let outer' : IsEven (W a + W b) (W rr) = rw (node_weight a x b) at outer in
      (
        (bl, ba, double_left _ _ _ _ grown' heavy' outer' inner great'),
        (bb, brr, double_right _ _ _ _ grown' heavy' outer' inner great'),
        rw (node_weight l e a, node_weight b re rr)
            (double_root _ _ _ _ grown' heavy' outer' inner great'),
      )

  rotated_right :
      (s : ℕ) (ll : Node A) (le : A) (lr : Node A) (e : A) (r : Node A)
      → IsBalanced (regular s ll le lr)
      → IsBalanced r
      → IsOutgrown (entries_weight r) (entries_weight lr + entries_weight ll)
      → 71 * entries_weight r < 29 * (entries_weight lr + entries_weight ll)
      → 71 * entries_weight lr ≤ 42 * (entries_weight lr + entries_weight ll)
      → IsBalanced (rotate_right (regular s ll le lr) e r)
  unfolding rotate_right update
  rotated_right s ll le lr e r (bll, blr, even) br grown heavy small =
      let even' = IsEven-sym _ _ even in
      let outer : IsEven (entries_weight lr + entries_weight r) (entries_weight ll) =
        rw (add_comm (entries_weight lr) (entries_weight r))
          (single_outer _ _ _ heavy even' small) in
      (
        bll,
        (blr, br, IsEven-sym _ _ (single_inner _ _ _ grown heavy even' small)),
        rw (node_weight lr e r) (IsEven-sym _ _ outer),
      )

  double_rotated_right :
      (s : ℕ) (ll : Node A) (le : A) (lr : Node A) (e : A) (r : Node A)
      → IsBalanced (regular s ll le lr)
      → IsBalanced r
      → IsOutgrown (entries_weight r) (entries_weight lr + entries_weight ll)
      → 71 * entries_weight r < 29 * (entries_weight lr + entries_weight ll)
      → 42 * (entries_weight lr + entries_weight ll) < 71 * entries_weight lr
      → IsBalanced (double_rotate_right (regular s ll le lr) e r)
  unfolding double_rotate_right rotate_right update
  double_rotated_right s ll le empty e r bl br grown heavy great = absurd (omega arith)
  double_rotated_right s ll le (compressed es) e r (_, (block), _) br grown heavy great =
      absurd block
  double_rotated_right s a x (regular s' b y c) e r (ba, (bb, bc, inner), outer) br grown heavy
        great =
      let W = λ (t : Node A). entries_weight t in
      let parts : suc (length (entries b ++ y ∷ entries c)) ≡ W c + W b =
        omega (arith, node_weight b y c) in
      let grown' : IsOutgrown (W r) (W c + W b + W a) = rw parts at grown in
      let heavy' : 71 * W r < 29 * (W c + W b + W a) = rw parts at heavy in
      let great' : 42 * (W c + W b + W a) < 71 * (W c + W b) = rw parts at great in
      let outer' : IsEven (W c + W b) (W a) = rw parts at (IsEven-sym _ _ outer) in
      let inner' = IsEven-sym _ _ inner in
      let root : IsEven (W a + W b) (W c + W r) =
        rw (add_comm (W a) (W b), add_comm (W c) (W r))
          (IsEven-sym _ _ (double_root _ _ _ _ grown' heavy' outer' inner' great')) in
      (
        (ba, bb, IsEven-sym _ _ (double_right _ _ _ _ grown' heavy' outer' inner' great')),
        (bc, br, IsEven-sym _ _ (double_left _ _ _ _ grown' heavy' outer' inner' great')),
        rw (node_weight a x b, node_weight c e r) root,
      )

  -- The choice between the two rotations.
  rotated_any_left :
      (l : Node A) (e : A) (r : Node A)
      → IsSized l
      → IsSized r
      → IsBalanced l
      → IsBalanced r
      → entries_weight l + entries_weight r < u32_mod
      → IsOutgrown (entries_weight l) (entries_weight r)
      → 71 * entries_weight l < 29 * entries_weight r
      → IsBalanced
          (if is_single_rotation r false then rotate_left l e r else double_rotate_left l e r)
  unfolding is_single_rotation
  rotated_any_left l e empty hl hr bl br small grown heavy = absurd (omega arith)
  rotated_any_left l e (compressed es) hl hr bl br small grown heavy = absurd br
  rotated_any_left l e (regular s rl re rr) hl hr bl br small grown heavy =
      let r = regular s rl re rr in
      let whole = node_weight rl re rr in
      let inner : weight rl ≡ entries_weight rl = weight-IsSized rl hr.0 (omega arith) in
      let total : weight r ≡ entries_weight rl + entries_weight rr =
        weight-IsSized r hr (omega arith) ∙ whole in
      if-split IsBalanced (leb (71 * weight rl) (42 * weight r))
        (λ h.
          rotated_left s l e rl re rr bl br (rw whole at grown) (rw whole at heavy) (ground arith))
        λ h.
          double_rotated_left s l e rl re rr bl br (rw whole at grown) (rw whole at heavy)
            (ground arith)

  rotated_any_right :
      (l : Node A) (e : A) (r : Node A)
      → IsSized l
      → IsSized r
      → IsBalanced l
      → IsBalanced r
      → entries_weight l + entries_weight r < u32_mod
      → IsOutgrown (entries_weight r) (entries_weight l)
      → 71 * entries_weight r < 29 * entries_weight l
      → IsBalanced
          (if is_single_rotation l true then rotate_right l e r else double_rotate_right l e r)
  unfolding is_single_rotation
  rotated_any_right empty e r hl hr bl br small grown heavy = absurd (omega arith)
  rotated_any_right (compressed es) e r hl hr bl br small grown heavy = absurd bl
  rotated_any_right (regular s ll le lr) e r hl hr bl br small grown heavy =
      let l = regular s ll le lr in
      let whole : suc (length (entries ll ++ le ∷ entries lr))
          ≡ entries_weight lr + entries_weight ll =
        omega (arith, node_weight ll le lr) in
      let inner : weight lr ≡ entries_weight lr = weight-IsSized lr hl.1 (omega arith) in
      let total : weight l ≡ entries_weight lr + entries_weight ll =
        weight-IsSized l hl (omega arith) ∙ whole in
      if-split IsBalanced (leb (71 * weight lr) (42 * weight l))
        (λ h.
          rotated_right s ll le lr e r bl br (rw whole at grown) (rw whole at heavy) (ground arith))
        λ h.
          double_rotated_right s ll le lr e r bl br (rw whole at grown) (rw whole at heavy)
            (ground arith)

  -- The end of a step of the join on the right.
  pub rebalanced_right :
      (l : Node A) (e : A) (r : Node A)
      → IsSized l
      → IsSized r
      → IsBalanced l
      → IsBalanced r
      → entries_weight l + entries_weight r < u32_mod
      → 29 * entries_weight l ≤ 71 * entries_weight r
      → IsOutgrown (entries_weight l) (entries_weight r)
      → IsBalanced (regular_rebalance_right l e r)
  unfolding regular_rebalance_right update
  rebalanced_right l e r hl hr bl br small light grown =
      if-split IsBalanced (is_left_heavy r l)
        (λ h. rotated_any_left l e r hl hr bl br small grown (heavier r l hr hl (omega arith) h))
        λ h. (
          bl,
          br,
          record { left_light = light; right_light = no_heavier r l hr hl (omega arith) h },
        )

  pub rebalanced_left :
      (l : Node A) (e : A) (r : Node A)
      → IsSized l
      → IsSized r
      → IsBalanced l
      → IsBalanced r
      → entries_weight l + entries_weight r < u32_mod
      → 29 * entries_weight r ≤ 71 * entries_weight l
      → IsOutgrown (entries_weight r) (entries_weight l)
      → IsBalanced (regular_rebalance_left l e r)
  unfolding regular_rebalance_left update
  rebalanced_left l e r hl hr bl br small light grown =
      if-split IsBalanced (is_left_heavy l r)
        (λ h. rotated_any_right l e r hl hr bl br small grown (heavier l r hl hr (omega arith) h))
        λ h. (
          bl,
          br,
          record { left_light = no_heavier l r hl hr (omega arith) h; right_light = light },
        )
