-- ===== src/Seq/Bulk.antt =====
-- include/cpam/sequence_ops.h: map, filter and reverse. The two calls that the code forks are two calls
-- on the two children.
pub mod Images
use cpam.Base.{ℕ, Bool, List, [], ◌∷◌, if◌then◌else◌}
use cpam.Node.{Node, empty, regular, compressed, single, iterate_seq, push}
use cpam.Node.Blocks.{make_compressed_array}
use cpam.Balance.{node_join}
use cpam.Seq.{build_tree, join, join2}

module _ {ℓ κ} {A : Type ℓ} {C : Type κ} (B : ℕ) where
  unfoldable pub map_compressed : (A → C) → Node A → Node C
  map_compressed f b = make_compressed_array B (iterate_seq (λ arr e. push arr (f e)) b [])

  unfoldable pub map : (A → C) → Node A → Node C
  map f empty = empty
  map f (compressed es) = map_compressed f (compressed es)
  map f (regular s lc e rc) = node_join B (map f lc) (map f rc) (f e)

module _ {ℓ} {A : Type ℓ} (B : ℕ) where
  unfoldable pub filter_bc : (A → Bool) → Node A → Node A
  filter_bc f b1 = build_tree B (iterate_seq (λ stack a. if f a then push stack a else stack) b1 [])

  unfoldable pub filter : (A → Bool) → Node A → Node A
  filter f empty = empty
  filter f (compressed es) = filter_bc f (compressed es)
  filter f (regular s lc e rc) =
      let l = filter f lc in let r = filter f rc in if f e then join B l e r else join2 B l r

  -- A block's array is filled from its last position down.
  unfoldable pub reverse : Node A → Node A
  reverse empty = empty
  reverse (compressed es) = compressed (iterate_seq (λ arr e. e ∷ arr) (compressed es) [])
  reverse (regular s lc e rc) = node_join B (reverse rc) (reverse lc) e
