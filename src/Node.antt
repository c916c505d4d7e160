-- ===== src/Node.antt =====
-- include/cpam/basic_node.h: the nodes of a tree and how they are walked. A tree is NULL, a regular
-- node with its size field `s`, or a compressed node, a block of entries. The block is read and
-- written through an entry encoder; this is the array of default_entry_encoder (compression.h).
-- Reference counts and the memory of nodes are not modelled: a function that takes ownership of a
-- tree and returns one is a pure function.
pub mod Blocks
pub mod Compressed
pub mod Contents
pub mod Iterate
use cpam.Base.{
  ℕ, ◌+◌, ◌*◌, ◌%◌, Bool, true, false, ◌&&◌, ◌||◌, not, Option, none, some, List, [], ◌∷◌, ◌++◌,
  ltb, leb, length, u32_mod,
}

pub data Node {ℓ} (A : Type ℓ) : Type ℓ where
  empty : Node A
  regular : ℕ → Node A → A → Node A → Node A
  compressed : List A → Node A

-- A test that may stop a walk, then the rest of the walk.
abbrev pub and_then {ℓ} : {S : Type ℓ} → Bool × S → (S → Bool × S) → Bool × S
and_then (true, s) rest = rest s
and_then (false, s) rest = (false, s)

module _ {ℓ} {A : Type ℓ} where
  -- The count field of a block is a node_size_t too.
  unfoldable pub size : Node A → ℕ
  size empty = 0
  size (regular s l e r) = s
  size (compressed es) = length es % u32_mod

  abbrev pub is_empty : Node A → Bool
  is_empty empty = true
  is_empty _ = false

  abbrev pub is_compressed : Node A → Bool
  is_compressed (compressed es) = true
  is_compressed _ = false

  abbrev pub is_regular : Node A → Bool
  is_regular t = not (is_compressed t)

  -- `update` after the fields of a node are set: its size anew from its children's, on 32 bits.
  unfoldable pub update : Node A → A → Node A → Node A
  update l e r = regular ((size l + size r + 1) % u32_mod) l e r

  unfoldable pub single : A → Node A
  single e = regular 1 empty e empty

  unfoldable pub is_simplex : ℕ → Node A → Bool
  is_simplex B t = leb (size t) (2 * B)

  unfoldable pub check_compressed_node : ℕ → Node A → Bool
  check_compressed_node B t = is_compressed t && leb (size t) (2 * B)

  -- `decode` of default_entry_encoder: the callback over the array, in order.
  unfoldable pub decode {κ} : {S : Type κ} → (S → A → S) → List A → S → S
  decode f [] s = s
  decode f (e ∷ es) s = decode f es (f s e)

  unfoldable pub decode_cond {κ} : {S : Type κ} → (S → A → Bool × S) → List A → S → Bool × S
  decode_cond f [] s = (true, s)
  decode_cond f (e ∷ es) s = and_then (f s e) (λ s'. decode_cond f es s')

  -- The callback's captured variables are the state that it is handed and returns.
  unfoldable pub iterate_seq {κ} : {S : Type κ} → (S → A → S) → Node A → S → S
  iterate_seq f empty s = s
  iterate_seq f (regular n l e r) s = iterate_seq f r (f (iterate_seq f l s) e)
  iterate_seq f (compressed es) s = decode f es s

  -- The walk stops at the first entry for which the callback returns false.
  unfoldable pub iterate_cond {κ} : {S : Type κ} → (S → A → Bool × S) → Node A → S → Bool × S
  iterate_cond f empty s = (true, s)
  iterate_cond f (regular n l e r) s =
      and_then (iterate_cond f l s) (λ s1. and_then (f s1 e) (λ s2. iterate_cond f r s2))
  iterate_cond f (compressed es) s = decode_cond f es s

  -- `compressed_node_elms` and the copying callbacks: each entry goes to the end of a buffer.
  abbrev pub push : List A → A → List A
  push buffer e = buffer ++ e ∷ []

  unfoldable pub compressed_node_elms : Node A → List A
  compressed_node_elms t = iterate_seq push t []

abbrev pub will_be_compressed : ℕ → ℕ → Bool
will_be_compressed B sz = leb B sz && leb sz (2 * B)
