-- ===== src/Seq/Walk.antt =====
-- include/cpam/sequence_ops.h: map_reduce, foreach_cond, foreach_seq and node_stats. A callback with
-- captured variables is a function on their state.
pub mod Sums
use cpam.Base.{ℕ, zero, suc, ◌+◌, Bool, true, false, List, length}
use cpam.Node.{Node, empty, regular, compressed, size, and_then, iterate_seq, iterate_cond}
use cpam.Node.Iterate.{entries}
use cpam.Seq.{with_parts, expose}

module _ {ℓ} {A : Type ℓ} where
  -- `r.identity()` and `R::add` are the parameters of a monoid.
  unfoldable pub map_reduce {κ} : {T : Type κ} → (T → T → T) → T → (A → T) → Node A → T
  map_reduce add identity f empty = identity
  map_reduce add identity f (compressed es) =
      iterate_seq (λ v a. add v (f a)) (compressed es) identity
  map_reduce add identity f (regular s l e r) =
      add (map_reduce add identity f l) (add (f e) (map_reduce add identity f r))

  unfoldable pub foreach_cond {κ} : {S : Type κ} → (S → A → Bool × S) → Node A → S → Bool × S
  foreach_cond f empty s = (true, s)
  foreach_cond f (compressed es) s = iterate_cond f (compressed es) s
  foreach_cond f (regular n l e r) s =
      and_then (and_then (foreach_cond f l s) (λ s1. f s1 e)) (λ s2. foreach_cond f r s2)

  -- The numbers of internal nodes and of leaf nodes, and the total size of the leaf nodes.
  unfoldable pub node_stats : Node A → ℕ × ℕ × ℕ
  node_stats empty = (0, 0, 0)
  node_stats (compressed es) = (0, 1, size (compressed es))
  node_stats (regular s l e r) =
      let (i1, l1, s1) = node_stats l in
      let (i2, l2, s2) = node_stats r in (i1 + i2 + 1, l1 + l2, s1 + s2)

module _ {ℓ} {A : Type ℓ} (B : ℕ) where
  -- On fuel, since a block is made a tree on the way.
  unfoldable pub foreach_seq_loop {κ} : {S : Type κ} → (S → A → S) → ℕ → Node A → S → S
  foreach_seq_loop f zero a s = s
  foreach_seq_loop f (suc fuel) a s =
      with_parts s (λ lc e rc. foreach_seq_loop f fuel rc (f (foreach_seq_loop f fuel lc s) e))
        (expose B a)

  unfoldable pub foreach_seq {κ} : {S : Type κ} → (S → A → S) → Node A → S → S
  foreach_seq f a s = foreach_seq_loop f (suc (length (entries a))) a s
