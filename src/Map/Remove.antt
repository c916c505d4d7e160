-- ===== src/Map/Remove.antt =====
-- include/cpam/map_ops.h: remove_compressed3, my_remove_2, my_remove and deletet.
pub mod Removed
use cpam.Base.{ℕ, zero, suc, Bool, ◌||◌, List, [], length, if◌then◌else◌}
use cpam.Node.{Node, empty, regular, compressed, iterate_seq, push}
use cpam.Node.Iterate.{entries}
use cpam.Balance.{node_join}
use cpam.Seq.{with_parts, expose, build_tree, join2}
use cpam.Entry.{Entry}

module _ {ℓ κ μ} {E : Type ℓ} {K : Type κ} {V : Type μ} (ent : Entry E K V) where
  open ent use {get_key, comp}

  -- The callback `merge` of `remove_compressed3`.
  abbrev pub keep_others : K → List E → E → List E
  keep_others k merged et =
      if comp (get_key et) k || comp k (get_key et) then push merged et else merged

module _ {ℓ κ μ} {E : Type ℓ} {K : Type κ} {V : Type μ} (ent : Entry E K V) (B : ℕ) where
  open ent use {get_key, comp}

  unfoldable pub remove_compressed3 : Node E → K → Node E
  remove_compressed3 b k = build_tree B (iterate_seq (keep_others ent k) b [])

  -- The branches at a root, given what the two recursive calls yield.
  abbrev pub remove_at : K → Node E → E → Node E → Node E → Node E → Node E
  remove_at k lc e rc new_lc new_rc =
      if comp (get_key e) k
      then node_join B lc new_rc e
      else if comp k (get_key e)
      then node_join B new_lc rc e
      else join2 B lc rc

  -- `my_remove`, on fuel, since a block is made a tree on the way.
  unfoldable pub remove_loop : ℕ → Node E → K → Node E
  remove_loop zero b k = empty
  remove_loop (suc fuel) b k =
      with_parts empty
        (λ lc e rc. remove_at k lc e rc (remove_loop fuel lc k) (remove_loop fuel rc k))
        (expose B b)

  unfoldable pub my_remove : Node E → K → Node E
  my_remove b k = remove_loop (suc (length (entries b))) b k

  -- `my_remove_2`, which `deletet` calls.
  unfoldable pub deletet : Node E → K → Node E
  deletet empty k = empty
  deletet (compressed es) k = remove_compressed3 (compressed es) k
  deletet (regular s lc e rc) k = remove_at k lc e rc (my_remove lc k) (my_remove rc k)
