-- ===== src/Node/Blocks.antt =====
-- include/cpam/basic_node_helpers.h: blocks from a buffer of entries. An index past the end of the
-- buffer, which the callers' asserts rule out, yields the empty tree. A node `e` that is passed to be
-- reused gives only its memory here: the code sets its entry, children and size anew.
use cpam.Base.{
  ℕ, ◌+◌, ◌-◌, ◌*◌, ◌/◌, ◌%◌, Option, none, some, List, [], leb, ◌==◌, if◌then◌else◌, length, take,
  cut, with_cut,
}
use cpam.Node.{Node, empty, compressed, size, update, iterate_seq, push}

-- The left one of two halves, `tot / 2`, less one where that leaves too few for the right one.
abbrev pub half_below : ℕ → ℕ
half_below tot = if tot % 2 == 0 then tot / 2 - 1 else tot / 2

module _ {ℓ} {A : Type ℓ} where
  unfoldable pub single_compressed_node : List A → Node A
  single_compressed_node stack = compressed stack

  -- Two blocks below a regular node that holds stack[tot / 2].
  unfoldable pub two_compressed_nodes : List A → Node A
  two_compressed_nodes stack =
      let tot = length stack in
      let left_size = tot / 2 in
      let right_size = tot / 2 - (if tot % 2 == 0 then 1 else 0) in
      with_cut empty
        (λ front x back. update (compressed front) x (compressed (take right_size back)))
        (cut left_size stack)

  unfoldable pub make_two_nodes : ℕ → List A → Node A
  make_two_nodes B start =
      let tot = length start in
      if tot == 2 * B
      then compressed start
      else with_cut empty
          (λ front x back. update (compressed front) x (compressed (take (tot / 2) back)))
          (cut (half_below tot) start)

  unfoldable pub four_compressed_nodes : ℕ → List A → Node A
  four_compressed_nodes B stack =
      let tot = length stack in
      with_cut empty
        (λ front x back. update (make_two_nodes B front) x (make_two_nodes B (take (tot / 2) back)))
        (cut (half_below tot) stack)

  -- `make_compressed(stack, tot, B)`.
  unfoldable pub make_compressed_array : ℕ → List A → Node A
  make_compressed_array B stack =
      let tot = length stack in
      if leb tot (2 * B)
      then single_compressed_node stack
      else if leb tot (4 * B + 1)
      then two_compressed_nodes stack
      else four_compressed_nodes B stack

  -- The buffer of `make_compressed(l, r, e, B)`: l, then e if it is there, then r.
  unfoldable pub fill : Node A → Option A → Node A → List A
  fill l e r =
      let from_l = iterate_seq push l [] in
      iterate_seq push r (elim e [ none ↦ from_l | some x ↦ push from_l x ])

  -- The size fields choose the shape, the buffer gives the contents.
  unfoldable pub make_compressed : ℕ → Node A → Node A → Option A → Node A
  make_compressed B l r e =
      let tot = size l + size r + (elim e [ none ↦ 0 | some _ ↦ 1 ]) in
      let stack = fill l e r in
      if leb tot (2 * B)
      then single_compressed_node stack
      else if leb tot (4 * B + 1)
      then two_compressed_nodes stack
      else four_compressed_nodes B stack

  -- `make_compressed_node`: the copy of a tree in one block.
  unfoldable pub make_compressed_node : Node A → Node A
  make_compressed_node t = compressed (iterate_seq push t [])

  -- `finalize` of basic_node.h: a root with fewer than B entries becomes one block.
  unfoldable pub finalize : ℕ → Node A → Node A
  finalize B root =
      let sz = size root in
      if leb (sz + 1) B then (if leb 1 sz then make_compressed_node root else root) else root
