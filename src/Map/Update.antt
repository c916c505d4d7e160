-- ===== src/Map/Update.antt =====
-- include/cpam/map_ops.h: update_value, update_compressed, update_tmpl and update.
pub mod Updated
use cpam.Base.{ℕ, Bool, List, [], ◌∷◌, if◌then◌else◌}
use cpam.Node.{Node, empty, regular, compressed, compressed_node_elms}
use cpam.Node.Blocks.{make_compressed_array}
use cpam.Balance.{node_join}
use cpam.Entry.{Entry}

module _ {ℓ κ μ} {E : Type ℓ} {K : Type κ} {V : Type μ} (ent : Entry E K V) where
  open ent use {get_key, set_val, comp}

  -- `update_value`, the value of an entry set to what the operation makes of the entry.
  abbrev pub update_value : (E → V) → E → E
  update_value op e = set_val e (op e)

  -- The loops of `update_compressed` over arr[k..n]: what they append to the buffer `merged`.
  unfoldable pub update_run : K → (E → V) → List E → List E
  update_run key op [] = []
  update_run key op (x ∷ xs) =
      let rest = update_run key op xs in
      if comp (get_key x) key
      then x ∷ rest
      else if comp key (get_key x)
      then x ∷ xs
      else update_value op x ∷ xs

module _ {ℓ κ μ} {E : Type ℓ} {K : Type κ} {V : Type μ} (ent : Entry E K V) (B : ℕ) where
  open ent use {get_key, comp}

  unfoldable pub update_compressed : Node E → K → (E → V) → Node E
  update_compressed b key op =
      make_compressed_array B (update_run ent key op (compressed_node_elms b))

  unfoldable pub update : Node E → K → (E → V) → Node E
  update empty k f = empty
  update (compressed es) k f = update_compressed (compressed es) k f
  update (regular s lc e rc) k f =
      let on_right = node_join B lc (update rc k f) e in
      let on_left = node_join B (update lc k f) rc e in
      if comp (get_key e) k
      then on_right
      else if comp k (get_key e)
      then on_left
      else node_join B lc rc (update_value ent f e)
