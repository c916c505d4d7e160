-- ===== src/Map/Intersect.antt =====
-- include/cpam/map_ops.h: intersect and its base case intersect_bc, for two maps of one entry type.
pub mod Common
pub mod Merged
use cpam.Base.{
  ℕ, zero, suc, ◌+◌, Bool, Option, none, some, List, [], ◌∷◌, leb, length, if◌then◌else◌,
}
use cpam.Node.{Node, empty, size, is_empty, compressed_node_elms}
use cpam.Node.Iterate.{entries}
use cpam.Seq.{with_parts, expose, build_tree, join, join2}
use cpam.Entry.{Entry}
use cpam.Map.Split.{SplitInfo, split}
use cpam.Map.Union.{base_case_size}

module _ {ℓ κ μ} {E : Type ℓ} {K : Type κ} {V : Type μ} (ent : Entry E K V) where
  open ent use {get_key, get_val, set_val, comp}

  -- The loop of `intersect_bc`: what it appends to `output`.
  unfoldable pub intersect_run : (V → V → V) → List E → List E → List E
  intersect_run op [] ys = []
  intersect_run op (x ∷ xs) [] = []
  intersect_run op (x ∷ xs) (y ∷ ys) =
      let past_left = intersect_run op xs (y ∷ ys) in
      let past_right = intersect_run op (x ∷ xs) ys in
      let both = set_val x (op (get_val y) (get_val x)) ∷ intersect_run op xs ys in
      if comp (get_key x) (get_key y)
      then past_left
      else if comp (get_key y) (get_key x)
      then past_right
      else both

module _ {ℓ κ μ} {E : Type ℓ} {K : Type κ} {V : Type μ} (ent : Entry E K V) (B : ℕ) where
  open ent use {get_key, get_val, to_entry}

  -- `intersect_bc` behind its assert. `intersect` calls intersect_bc where the size fields of both trees come
  -- to at most the bound of the assert, so that the assert holds in trees of fewer than 2 ^ 32 entries, and
  -- is written with this function.
  unfoldable pub merged_intersect : Node E → Node E → (V → V → V) → Node E
  merged_intersect b1 b2 op =
      build_tree B (intersect_run ent op (compressed_node_elms b1) (compressed_node_elms b2))

  -- The entries of both trees are written to `stack`, which has room for kBaseCaseSize + 1: none where the
  -- assert that at most kBaseCaseSize were written fails.
  unfoldable pub intersect_bc : Node E → Node E → (V → V → V) → Option (Node E)
  intersect_bc b1 b2 op =
      if leb (length (compressed_node_elms b1) + length (compressed_node_elms b2))
        (base_case_size B)
      then some (merged_intersect b1 b2 op)
      else none

  -- The last lines of `intersect`: the two sides joined, with the entry of the key if both maps have it.
  abbrev pub intersect_at : (V → V → V) → E → Option E → Node E → Node E → Node E
  intersect_at op e2 none l r = join2 B l r
  intersect_at op e2 (some e1) l r =
      join B l (to_entry (get_key e2) (op (get_val e1) (get_val e2))) r

  -- `intersect`, on fuel: b2 is exposed in each call.
  unfoldable pub intersect_loop : ℕ → Node E → Node E → (V → V → V) → Node E
  intersect_loop zero b1 b2 op = empty
  intersect_loop (suc fuel) b1 b2 op =
      let halves =
        with_parts empty
          (λ l2 e2 r2.
            let sp1 = split ent B b1 (get_key e2) in
            let l = intersect_loop fuel sp1.l l2 op in
            let r = intersect_loop fuel sp1.r r2 op in intersect_at op e2 sp1.mid l r)
          (expose B b2) in
      if is_empty b1
      then empty
      else if is_empty b2
      then empty
      else if leb (size b1 + size b2) (base_case_size B)
      then merged_intersect b1 b2 op
      else halves

  unfoldable pub intersect : Node E → Node E → (V → V → V) → Node E
  intersect b1 b2 op = intersect_loop (suc (length (entries b2))) b1 b2 op
