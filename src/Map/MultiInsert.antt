-- ===== src/Map/MultiInsert.antt =====
-- include/cpam/map_ops.h: multi_insert_sorted and its base case multiinsert_bc. The array and its length
-- are the list of its entries. `base` is the constant _binary_search_base of parlay.
pub mod Arrays
pub mod Merged
use cpam.Base.{
  ℕ, zero, suc, ◌+◌, Bool, true, false, not, Option, none, some, List, [], ◌∷◌, leb, ◌==◌, length,
  take, drop, if◌then◌else◌,
}
use cpam.Search.{binary_search}
use cpam.Node.{Node, empty, size, is_empty, compressed_node_elms}
use cpam.Node.Iterate.{entries}
use cpam.Balance.{node_join}
use cpam.Seq.{with_parts, expose, build_tree, from_array}
use cpam.Entry.{Entry}
use cpam.Map.Insert.{combine_values}
use cpam.Map.Union.{base_case_size, union_run}

module _ {ℓ κ μ} {E : Type ℓ} {K : Type κ} {V : Type μ} (ent : Entry E K V) where
  open ent use {get_key, comp}

  -- A[mid] if it is a duplicate of the key bk, from the array from A + mid on: `dup`.
  abbrev pub duplicate : K → List E → Option E
  duplicate bk [] = none
  duplicate bk (x ∷ xs) = if not (comp bk (get_key x)) then some x else none

  -- The array from A + mid + dup on.
  abbrev pub past_duplicate : K → List E → List E
  past_duplicate bk [] = []
  past_duplicate bk (x ∷ xs) = if not (comp bk (get_key x)) then xs else x ∷ xs

  -- `combine_values(root, A[mid], false, op)`, if there is a duplicate.
  abbrev pub root_with : (V → V → V) → E → Option E → E
  root_with op e none = e
  root_with op e (some x) = combine_values ent e x false op

module _ {ℓ κ μ} {E : Type ℓ} {K : Type κ} {V : Type μ} (ent : Entry E K V) (B base : ℕ) where
  open ent use {get_key, comp}

  -- The loops are those of `union_bc`, but the value of the tree's entry comes first in `op`.
  unfoldable pub multiinsert_bc : Node E → List E → (V → V → V) → Node E
  multiinsert_bc b1 a op =
      build_tree B (union_run ent (λ new old. op old new) (compressed_node_elms b1) a)

  -- `multi_insert_sorted`, on fuel: b is exposed in each call, the two recursive calls run in parallel.
  -- A block without entries, which no operation builds, stands for no entries.
  unfoldable pub multi_insert_loop : ℕ → Node E → List E → (V → V → V) → Node E
  multi_insert_loop zero b a op = empty
  multi_insert_loop (suc fuel) b a op =
      let halves =
        with_parts (from_array B a)
          (λ lc e rc.
            let bk = get_key e in
            let mid = binary_search (λ x. comp (get_key x) bk) base a in
            let behind = drop mid a in
            let l = multi_insert_loop fuel lc (take mid a) op in
            let r = multi_insert_loop fuel rc (past_duplicate ent bk behind) op in
            node_join B l r (root_with ent op e (duplicate ent bk behind)))
          (expose B b) in
      if is_empty b
      then from_array B a
      else if length a == 0
      then b
      else if leb (size b + length a) (base_case_size B)
      then multiinsert_bc b a op
      else halves

  unfoldable pub multi_insert_sorted : Node E → List E → (V → V → V) → Node E
  multi_insert_sorted b a op = multi_insert_loop (suc (length (entries b))) b a op
