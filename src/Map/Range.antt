-- ===== src/Map/Range.antt =====
-- include/cpam/map_ops.h: comp_bc, left and right, which are left_2 and right_2 on plain pointers, and
-- range_2, which `range` of map.h calls. The function `range` of map_ops.h is another: it passes a pointer
-- to comp_bc that was moved from, and is not modelled. In blocks the keys are compared by the operator <=
-- of their type, `le`.
pub mod Within
use cpam.Base.{ℕ, Bool, ◌&&◌, List, [], if◌then◌else◌}
use cpam.Node.{Node, empty, regular, compressed, iterate_seq, push}
use cpam.Seq.{build_tree, join}
use cpam.Entry.{Entry}

module _ {ℓ κ μ} {E : Type ℓ} {K : Type κ} {V : Type μ} (ent : Entry E K V) where
  open ent use {get_key, comp}

  -- The root of the first tree on the way down whose key is in the range, or a block.
  unfoldable pub range_root : Node E → K → K → Node E
  range_root empty key_left key_right = empty
  range_root (compressed es) key_left key_right = compressed es
  range_root (regular s l e r) key_left key_right =
      let on_left = range_root l key_left key_right in
      let on_right = range_root r key_left key_right in
      if comp key_right (get_key e)
      then on_left
      else if comp (get_key e) key_left
      then on_right
      else regular s l e r

module _ {ℓ κ μ} {E : Type ℓ} {K : Type κ} {V : Type μ} (ent : Entry E K V) (B : ℕ) where
  open ent use {get_key, comp, le}

  -- `stack` has room for 2 * B entries, the most that a block has.
  unfoldable pub comp_bc : Node E → (K → Bool) → Node E
  comp_bc b f =
      build_tree B (iterate_seq (λ stack a. if f (get_key a) then push stack a else stack) b [])

  unfoldable pub left : Node E → K → Node E
  left empty k = empty
  left (compressed es) k = comp_bc (compressed es) (λ a. le a k)
  left (regular s lc e rc) k =
      let on_left = left lc k in
      let rest = join B lc e (left rc k) in if comp k (get_key e) then on_left else rest

  unfoldable pub right : Node E → K → Node E
  right empty k = empty
  right (compressed es) k = comp_bc (compressed es) (λ a. le k a)
  right (regular s lc e rc) k =
      let on_right = right rc k in
      let rest = join B (right lc k) e rc in if comp (get_key e) k then on_right else rest

  -- `range_2` below the root that `range_root` finds.
  unfoldable pub range_at : Node E → K → K → Node E
  range_at empty low high = empty
  range_at (compressed es) low high = comp_bc (compressed es) (λ k. le low k && le k high)
  range_at (regular s lc e rc) low high = join B (right lc low) e (left rc high)

  unfoldable pub range_2 : Node E → K → K → Node E
  range_2 b low high = range_at (range_root ent b low high) low high
