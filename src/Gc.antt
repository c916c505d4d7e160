-- ===== src/Gc.antt =====
-- include/cpam/gc.h and the reference counts of include/cpam/basic_node.h: nodes in memory, each with the
-- number of pointers to it. A node's address is its place in the heap; freed memory is none there. A count
-- is the low 31 bits of the word `r`, whose top bit tells the kind of a node.
pub mod Cells
pub mod Counts
pub mod Copies
pub mod Exclusive
pub mod Handles
use cpam.Base.{
  ℕ, zero, suc, ◌+◌, ◌-◌, ◌%◌, ◌^◌, Bool, true, false, Option, none, some, List, [], ◌∷◌, ◌++◌,
  ◌==◌, ◌*◌, ltb, leb, length, if◌then◌else◌,
}

-- NULL is none.
abbrev pub Ptr : Type 0
Ptr = Option ℕ

-- A regular node has a size, `s`, two children and an entry. The size of a block is the length of its entries;
-- its size_in_bytes is left out.
pub data Cell {ℓ} (E : Type ℓ) : Type ℓ where
  regular_node : ℕ → Ptr → E → Ptr → Cell E
  compressed_node : List E → Cell E

-- A node and its count.
abbrev pub Counted {ℓ} : Type ℓ → Type ℓ
Counted E = ℕ × Cell E

abbrev pub Heap {ℓ} : Type ℓ → Type ℓ
Heap E = List (Option (Counted E))

abbrev pub low_bits : ℕ
low_bits = 2 ^ 31

module _ {ℓ} {E : Type ℓ} where
  abbrev pub load : Heap E → ℕ → Option (Counted E)
  load [] p = none
  load (c ∷ h) zero = c
  load (c ∷ h) (suc p) = load h p

  abbrev pub store : Heap E → ℕ → Option (Counted E) → Heap E
  store [] p c' = []
  store (c ∷ h) zero c' = c' ∷ h
  store (c ∷ h) (suc p) c' = c ∷ store h p c'

  unfoldable pub ref_cnt : Heap E → Ptr → Option ℕ
  ref_cnt h none = some 0
  ref_cnt h (some p) = elim (load h p) [ none ↦ none | some (r, c) ↦ some r ]

  -- `increment`; none where the memory was freed, here and below.
  unfoldable pub increment : Heap E → Ptr → ℕ → Option (Heap E)
  increment h none i = some h
  increment h (some p) i = elim (load h p) [
    | none ↦ none
    | some (r, c) ↦ some (store h p (some ((r + i) % low_bits, c)))
  ]

  -- `decrement_count` of a node that was read, with free_node for the last reference.
  abbrev pub decrement_cell : Heap E → ℕ → ℕ → Cell E → Bool × Heap E
  decrement_cell h p r c =
      if r == 1
      then (true, store h p none)
      else (false, store h p (some ((r + low_bits - 1) % low_bits, c)))

  unfoldable pub decrement : Heap E → Ptr → Option (Bool × Heap E)
  decrement h none = some (false, h)
  decrement h (some p) = elim (load h p) [
    | none ↦ none
    | some (r, c) ↦ some (decrement_cell h p r c)
  ]

  -- After the node was read and its count decremented: the children too, where it was freed.
  abbrev pub with_children :
      (Heap E → Ptr → Option (Heap E)) → Cell E → Bool × Heap E → Option (Heap E)
  with_children recur c (false, h) = some h
  with_children recur (compressed_node es) (true, h) = some h
  with_children recur (regular_node s lsub e rsub) (true, h) = elim (recur h lsub) [
    | none ↦ none
    | some h' ↦ recur h' rsub
  ]

  -- On fuel, one more than the nodes in use: a call that goes on has freed a node. The two parallel calls
  -- are taken from left to right.
  unfoldable pub decrement_recursive : ℕ → Heap E → Ptr → Option (Heap E)
  decrement_recursive zero h t = none
  decrement_recursive (suc fuel) h none = some h
  decrement_recursive (suc fuel) h (some p) = elim (load h p) [
    | none ↦ none
    | some (r, c) ↦ with_children (decrement_recursive fuel) c (decrement_cell h p r c)
  ]

  -- The nodes in use.
  abbrev pub live : Heap E → ℕ
  live [] = 0
  live (none ∷ h) = live h
  live (some c ∷ h) = suc (live h)

  -- A new node, with count 1.
  abbrev pub alloc : Heap E → Cell E → Heap E × Ptr
  alloc h c = (h ++ some (1, c) ∷ [], some (length h))

  -- `copy` of a node that was read. The size of a new regular node is not set: it is `unset`, what the memory
  -- holds. A block is copied by `make_compressed_node`,
  -- whose buffer has room for 2 * B entries: none for more.
  abbrev pub copy_cell : ℕ → ℕ → Heap E → Cell E → Option (Heap E × Ptr)
  copy_cell B unset h (compressed_node es) =
      if leb (length es) (2 * B) then some (alloc h (compressed_node es)) else none
  copy_cell B unset h (regular_node s lc e rc) = elim (increment h lc 1) [
    | none ↦ none
    | some h1 ↦ elim (increment h1 rc 1) [
      | none ↦ none
      | some h2 ↦ some (alloc h2 (regular_node unset lc e rc))
    ]
  ]

  unfoldable pub copy : ℕ → ℕ → Heap E → ℕ → Option (Heap E × Ptr)
  copy B unset h t = elim (load h t) [ none ↦ none | some (r, c) ↦ copy_cell B unset h c ]

  -- The copy, once the reference to t is given up.
  abbrev pub give_up : ℕ → Option (Heap E × Ptr) → Option (Heap E × Ptr)
  give_up t none = none
  give_up t (some (h, o)) = elim (decrement_recursive (suc (live h)) h (some t)) [
    | none ↦ none
    | some h' ↦ some (h', o)
  ]

  unfoldable pub copy_if_needed : ℕ → ℕ → Heap E → ℕ → Option (Heap E × Ptr)
  copy_if_needed B unset h t = elim (load h t) [
    | none ↦ none
    | some (r, c) ↦ if ltb 1 r then give_up t (copy B unset h t) else some (h, some t)
  ]
