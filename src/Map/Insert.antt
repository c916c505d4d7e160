-- ===== src/Map/Insert.antt =====
-- include/cpam/map_ops.h: combine_values, insert_compressed2, insert_tmpl and insert.
pub mod Inserted
use cpam.Base.{ℕ, Bool, true, false, Option, none, some, List, [], ◌∷◌, ◌++◌, if◌then◌else◌}
use cpam.Node.{Node, empty, regular, compressed, single, iterate_seq, push}
use cpam.Node.Blocks.{make_compressed_array}
use cpam.Balance.{node_join}
use cpam.Entry.{Entry}

module _ {ℓ κ μ} {E : Type ℓ} {K : Type κ} {V : Type μ} (ent : Entry E K V) where
  open ent use {get_key, get_val, set_val, comp}

  -- `combine_values(re, e, reverse, op)`: the new contents of `re`.
  unfoldable pub combine_values : E → E → Bool → (V → V → V) → E
  combine_values re e reverse op =
      if reverse
      then set_val re (op (get_val e) (get_val re))
      else set_val re (op (get_val re) (get_val e))

  -- The callback of `insert_compressed2`: its state is `placed` and the buffer.
  abbrev pub merge_step : E → (V → V → V) → Bool × List E → E → Bool × List E
  merge_step e f (true, merged) et = (true, push merged et)
  merge_step e f (false, merged) et =
      if comp (get_key et) (get_key e)
      then (false, push merged et)
      else if comp (get_key e) (get_key et)
      then (true, push merged e)
      else (true, push merged (combine_values et e true f))

  -- The entry goes to the end if it was not placed.
  abbrev pub place_last : E → Bool × List E → List E
  place_last e (true, merged) = merged
  place_last e (false, merged) = push merged e

module _ {ℓ κ μ} {E : Type ℓ} {K : Type κ} {V : Type μ} (ent : Entry E K V) (B : ℕ) where
  open ent use {get_key, comp}

  unfoldable pub insert_compressed2 : Node E → E → (V → V → V) → Node E
  insert_compressed2 b e f =
      make_compressed_array B (place_last ent e (iterate_seq (merge_step ent e f) b (false, [])))

  -- At the key itself the new entry takes the node, with the old one's value combined in.
  unfoldable pub insert : Node E → E → (V → V → V) → Node E
  insert empty e f = single e
  insert (compressed es) e f = insert_compressed2 (compressed es) e f
  insert (regular s lc be rc) e f =
      let on_right = node_join B lc (insert rc e f) be in
      let on_left = node_join B (insert lc e f) rc be in
      if comp (get_key be) (get_key e)
      then on_right
      else if comp (get_key e) (get_key be)
      then on_left
      else node_join B lc rc (combine_values ent e be true f)
