-- ===== src/Map/MultiDelete.antt =====
-- include/cpam/map_ops.h: multi_delete_sorted and its base case multidelete_bc. The array and its length
-- are the list of its keys. `base` is the constant _binary_search_base of parlay.
pub mod Removed
use cpam.Base.{
  ℕ, zero, suc, Bool, Option, none, some, List, [], ◌∷◌, leb, ◌==◌, length, take, drop,
  if◌then◌else◌,
}
use cpam.Search.{binary_search}
use cpam.Node.{Node, empty, size, is_empty, compressed_node_elms}
use cpam.Node.Iterate.{entries}
use cpam.Balance.{node_join}
use cpam.Seq.{with_parts, expose, build_tree, join2}
use cpam.Entry.{Entry, key_entry}
use cpam.Map.Union.{base_case_size}
use cpam.Map.MultiInsert.{duplicate, past_duplicate}

module _ {ℓ κ μ} {E : Type ℓ} {K : Type κ} {V : Type μ} (ent : Entry E K V) where
  open ent use {get_key, comp}

  -- The loops of `multidelete_bc`: what they append to `output`.
  unfoldable pub delete_run : List E → List K → List E
  delete_run [] ks = []
  delete_run (x ∷ xs) [] = x ∷ xs
  delete_run (x ∷ xs) (k ∷ ks) =
      let keep = x ∷ delete_run xs (k ∷ ks) in
      let past_right = delete_run (x ∷ xs) ks in
      let drop_both = delete_run xs ks in
      if comp (get_key x) k then keep else if comp k (get_key x) then past_right else drop_both

module _ {ℓ κ μ} {E : Type ℓ} {K : Type κ} {V : Type μ} (ent : Entry E K V) (B base : ℕ) where
  open ent use {get_key, comp}

  unfoldable pub multidelete_bc : Node E → List K → Node E
  multidelete_bc b1 a = build_tree B (delete_run ent (compressed_node_elms b1) a)

  -- The last lines: the root stays if there is no duplicate of its key.
  abbrev pub delete_at : E → Option K → Node E → Node E → Node E
  delete_at e none l r = node_join B l r e
  delete_at e (some k) l r = join2 B l r

  -- `multi_delete_sorted`, on fuel: b is exposed in each call, the two recursive calls run in parallel.
  unfoldable pub multi_delete_loop : ℕ → Node E → List K → Node E
  multi_delete_loop zero b a = empty
  multi_delete_loop (suc fuel) b a =
      let halves =
        with_parts empty
          (λ lc e rc.
            let bk = get_key e in
            let mid = binary_search (λ k. comp k bk) base a in
            let behind = drop mid a in
            let l = multi_delete_loop fuel lc (take mid a) in
            let r = multi_delete_loop fuel rc (past_duplicate (key_entry ent) bk behind) in
            delete_at e (duplicate (key_entry ent) bk behind) l r)
          (expose B b) in
      if is_empty b
      then empty
      else if length a == 0
      then b
      else if leb (size b) (base_case_size B)
      then multidelete_bc b a
      else halves

  unfoldable pub multi_delete_sorted : Node E → List K → Node E
  multi_delete_sorted b a = multi_delete_loop (suc (length (entries b))) b a
