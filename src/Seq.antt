-- ===== src/Seq.antt =====
-- include/cpam/sequence_ops.h: from arrays to trees and back, and the concatenation of trees. A pointer
-- and a length are the list of the elements that they span. `expose` and `join` pass a root node on
-- for reuse, which leaves no trace here.
pub mod Contents
pub mod Rank
pub mod Bulk
pub mod Scan
pub mod Walk
use cpam.Base.{
  ℕ, zero, suc, ◌+◌, ◌-◌, ◌*◌, ◌/◌, ◌%◌, Bool, true, false, ◌&&◌, ◌||◌, not, Option, none, some,
  List, [], ◌∷◌, ltb, leb, ◌==◌, if◌then◌else◌, length, take, cut, with_cut,
}
use cpam.Node.{
  Node, empty, regular, compressed, size, update, single, is_compressed, is_regular,
  will_be_compressed, iterate_seq, push, compressed_node_elms,
}
use cpam.Node.Blocks.{make_compressed, make_compressed_array}
use cpam.Balance.{regular_node_join, node_join}

module _ {ℓ} {A : Type ℓ} where
  -- The first element of an array, as a tree of its own.
  abbrev pub single_first : List A → Node A
  single_first xs = with_cut empty (λ front x back. single x) (cut 0 xs)

  -- `expose_simple`; NULL and a compressed node have no such parts.
  abbrev pub fields : Node A → Option (Node A × A × Node A)
  fields (regular s l e r) = some (l, e, r)
  fields t = none

  -- What is done with the parts of a root, and where there is no root.
  abbrev pub with_parts {κ} :
      {C : Type κ} → C → (Node A → A → Node A → C) → Option (Node A × A × Node A) → C
  with_parts past f none = past
  with_parts past f (some (l, e, r)) = f l e r

module _ {ℓ} {A : Type ℓ} (B : ℕ) where
  -- `to_tree_impl`, on fuel: the array is halved in each call. Its length is a uint32_t there, which
  -- the array of a block fits.
  to_tree_loop : ℕ → List A → ℕ → Node A
  to_tree_loop zero xs depth = empty
  to_tree_loop (suc fuel) xs depth =
      let n = length xs in
      let halves =
        with_cut empty
          (λ front x back.
            regular_node_join (to_tree_loop fuel front (depth + 1))
              (to_tree_loop fuel back (depth + 1)) x)
          (cut (n / 2) xs) in
      if n == 0
      then empty
      else if n == 1
      then single_first xs
      else if n == B && ltb 0 depth
      then compressed xs
      else halves

  unfoldable pub to_tree_impl : List A → ℕ → Node A
  unfolding to_tree_loop
  to_tree_impl xs depth = to_tree_loop (length xs) xs depth

  unfoldable pub to_tree : Node A → Node A
  to_tree c = to_tree_impl (compressed_node_elms c) 0

  -- A root with its parts; a block is made a tree first.
  unfoldable pub expose : Node A → Option (Node A × A × Node A)
  expose (compressed es) = fields (to_tree (compressed es))
  expose t = fields t

  unfoldable pub join : Node A → A → Node A → Node A
  join l e r = node_join B l r e

  -- How the base cases turn their output buffer into a tree.
  unfoldable pub build_tree : List A → Node A
  build_tree output =
      if ltb (length output) B then to_tree_impl output 0 else make_compressed_array B output

  -- `from_array`, on fuel.
  from_array_loop : ℕ → List A → Node A
  from_array_loop zero xs = empty
  from_array_loop (suc fuel) xs =
      let n = length xs in
      let halves =
        with_cut empty
          (λ front x back. node_join B (from_array_loop fuel front) (from_array_loop fuel back) x)
          (cut (n / 2) xs) in
      if n == 0
      then empty
      else if n == 1
      then single_first xs
      else if leb B n && leb n (2 * B)
      then make_compressed_array B xs
      else halves

  unfoldable pub from_array : List A → Node A
  unfolding from_array_loop
  from_array xs = from_array_loop (length xs) xs

  -- One step of `join2_i`, given what its two recursive branches yield.
  abbrev pub join2_step : Node A → Node A → Node A → Node A → Node A
  join2_step b1 b2 into_b1 into_b2 =
      let fits = will_be_compressed B (size b1 + size b2) in
      if ltb (size b2) (size b1)
      then (if is_compressed b1 || fits then make_compressed B b1 b2 none else into_b1)
      else (if is_compressed b2 || fits then make_compressed B b1 b2 none else into_b2)

  unfoldable pub join2 : Node A → Node A → Node A
  join2 empty b2 = b2
  join2 (compressed xs) empty = compressed xs
  join2 (compressed xs) (compressed ys) = join2_step (compressed xs) (compressed ys) empty empty
  join2 (compressed xs) (regular s l e r) =
      let into = join (join2 (compressed xs) l) e r in
      join2_step (compressed xs) (regular s l e r) empty into
  join2 (regular s l e r) empty = regular s l e r
  join2 (regular s l e r) (compressed ys) =
      let into = join l e (join2 r (compressed ys)) in
      join2_step (regular s l e r) (compressed ys) into empty
  join2 (regular s1 l1 e1 r1) (regular s2 l2 e2 r2) =
      let into1 = join l1 e1 (join2 r1 (regular s2 l2 e2 r2)) in
      let into2 = join (join2 (regular s1 l1 e1 r1) l2) e2 r2 in
      join2_step (regular s1 l1 e1 r1) (regular s2 l2 e2 r2) into1 into2
