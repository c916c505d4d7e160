-- ===== src/Seq/Scan.antt =====
-- include/cpam/sequence_ops.h: foreach_index, find_unsorted, is_sorted and foreach_cond_par. The two parallel
-- calls of each are taken from left to right.
pub mod Indexed
pub mod Unsorted
use cpam.Base.{
  ℕ, suc, ◌+◌, Bool, true, false, ◌&&◌, Option, none, some, List, [], ◌∷◌, if◌then◌else◌,
}
use cpam.Node.{Node, empty, regular, compressed, size, and_then, iterate_seq, iterate_cond}

-- The first answer of two.
abbrev pub first_of {κ} : {X : Type κ} → Option X → Option X → Option X
first_of none second = second
first_of (some x) second = some x

-- Two walks, the second whatever the first says.
abbrev pub both {κ} : {S : Type κ} → Bool × S → (S → Bool × S) → Bool × S
both (ok, s) second = let r = second s in (ok && r.0, r.1)

module _ {ℓ} {A : Type ℓ} where
  -- The callback on a block, with i and what `f` captured.
  abbrev pub indexed_step {κ} : {S : Type κ} → (S → A → ℕ → S) → ℕ → ℕ × S → A → ℕ × S
  indexed_step f start (i, s) a = (i + 1, f s a (start + i))

  -- `f` gets the index of each entry.
  unfoldable pub foreach_index {κ} : {S : Type κ} → (S → A → ℕ → S) → Node A → ℕ → S → S
  foreach_index f empty start s = s
  foreach_index {S = S} f (compressed es) start s =
      (iterate_seq {S = ℕ × S} (indexed_step f start) (compressed es) (0, s)).1
  foreach_index f (regular n lc e rc) start s =
      let lsize = size lc in
      foreach_index f rc (start + lsize + 1) (foreach_index f lc start (f s e (start + lsize)))

  -- `==` on entries is the parameter `same`. The state is i and ret.
  abbrev pub unsorted_step : (A → A → Bool) → A → ℕ × Option ℕ → A → Bool × (ℕ × Option ℕ)
  unsorted_step same e (i, ret) a = if same e a then (false, (i, some i)) else (true, (i + 1, ret))

  unfoldable pub find_unsorted_compressed : (A → A → Bool) → Node A → A → Option ℕ
  find_unsorted_compressed same b e =
      (iterate_cond {S = ℕ × Option ℕ} (unsorted_step same e) b (0, none)).1.1

  -- The entry of a regular node is not looked at.
  unfoldable pub find_unsorted : (A → A → Bool) → Node A → A → Option ℕ
  find_unsorted same empty e = none
  find_unsorted same (compressed es) e = find_unsorted_compressed same (compressed es) e
  find_unsorted same (regular s lc x rc) e =
      first_of (find_unsorted same lc e) (find_unsorted same rc e)

  -- The callback of `is_sorted_impl` in a block: whether it was sorted so far, and its first and last entry.
  abbrev pub sorted_step : (A → A → Bool) → Bool × Option (A × A) → A → Bool × Option (A × A)
  sorted_step less (ok, none) a = (ok, some (a, a))
  sorted_step less (ok, some (left, right)) a = (ok && less right a, some (left, a))

  -- `ET()` is the parameter `default`, also for the ends of a block without entries.
  abbrev pub block_ends : A → Bool × Option (A × A) → Bool × A × A
  block_ends default (ok, none) = (ok, default, default)
  block_ends default (ok, some (left, right)) = (ok, left, right)

  unfoldable pub is_sorted_impl : (A → A → Bool) → A → Node A → Bool × A × A
  is_sorted_impl less default empty = (true, default, default)
  is_sorted_impl less default (compressed es) =
      block_ends default (iterate_seq (sorted_step less) (compressed es) (true, none))
  is_sorted_impl less default (regular s lc mid rc) =
      let (l_sorted, l_left, l_right) = is_sorted_impl less default lc in
      let (r_sorted, r_left, r_right) = is_sorted_impl less default rc in
      (l_sorted && r_sorted && (less l_right mid && less mid r_left), l_left, r_right)

  unfoldable pub is_sorted : (A → A → Bool) → A → Node A → Bool
  is_sorted less default a = (is_sorted_impl less default a).0

  -- The root goes first, and either child is walked whatever the other says. `cond` may read the state.
  unfoldable pub foreach_cond_par {κ} :
      {S : Type κ} → (S → A → Bool × S) → (S → Bool) → Node A → S → Bool × S
  foreach_cond_par f cond empty s = (true, s)
  foreach_cond_par f cond (compressed es) s =
      if cond s then iterate_cond f (compressed es) s else (false, s)
  foreach_cond_par f cond (regular n lc e rc) s =
      if cond s
      then and_then (f s e)
          (λ s1. both (foreach_cond_par f cond lc s1) (foreach_cond_par f cond rc))
      else (false, s)
