-- ===== src/Map/Difference.antt =====
-- include/cpam/map_ops.h: difference and its base case difference_bc.
pub mod Removed
use cpam.Base.{
  ℕ, zero, suc, ◌+◌, Bool, Option, none, some, List, [], ◌∷◌, leb, length, if◌then◌else◌,
}
use cpam.Node.{Node, empty, size, is_empty, compressed_node_elms}
use cpam.Node.Iterate.{entries}
use cpam.Balance.{node_join}
use cpam.Seq.{with_parts, expose, build_tree, join2}
use cpam.Entry.{Entry}
use cpam.Map.Split.{SplitInfo, split}
use cpam.Map.Union.{base_case_size}

module _ {ℓ κ μ} {E : Type ℓ} {K : Type κ} {V : Type μ} (ent : Entry E K V) where
  open ent use {get_key, comp}

  -- The loops of `difference_bc`: what they append to `output`.
  unfoldable pub difference_run : List E → List E → List E
  difference_run [] ys = []
  difference_run (x ∷ xs) [] = x ∷ xs
  difference_run (x ∷ xs) (y ∷ ys) =
      let keep = x ∷ difference_run xs (y ∷ ys) in
      let past_right = difference_run (x ∷ xs) ys in
      let drop_both = difference_run xs ys in
      if comp (get_key x) (get_key y)
      then keep
      else if comp (get_key y) (get_key x)
      then past_right
      else drop_both

module _ {ℓ κ μ} {E : Type ℓ} {K : Type κ} {V : Type μ} (ent : Entry E K V) (B : ℕ) where
  open ent use {get_key}

  unfoldable pub difference_bc : Node E → Node E → Node E
  difference_bc b1 b2 =
      build_tree B (difference_run ent (compressed_node_elms b1) (compressed_node_elms b2))

  -- The last lines of `difference`: the root stays if the second map has no entry of its key.
  abbrev pub difference_at : E → Option E → Node E → Node E → Node E
  difference_at e none l r = node_join B l r e
  difference_at e (some found) l r = join2 B l r

  -- `difference`, on fuel: b1 is exposed in each call.
  unfoldable pub difference_loop : ℕ → Node E → Node E → Node E
  difference_loop zero b1 b2 = empty
  difference_loop (suc fuel) b1 b2 =
      let halves =
        with_parts empty
          (λ l1 e r1.
            let sp2 = split ent B b2 (get_key e) in
            let l = difference_loop fuel l1 sp2.l in
            let r = difference_loop fuel r1 sp2.r in difference_at e sp2.mid l r)
          (expose B b1) in
      if is_empty b1
      then empty
      else if is_empty b2
      then b1
      else if leb (size b1 + size b2) (base_case_size B)
      then difference_bc b1 b2
      else halves

  unfoldable pub difference : Node E → Node E → Node E
  difference b1 b2 = difference_loop (suc (length (entries b1))) b1 b2
