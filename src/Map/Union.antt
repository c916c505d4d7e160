-- ===== src/Map/Union.antt =====
-- include/cpam/map_ops.h: uniont and its base case union_bc. The base case size is 8 * B + 2.
pub mod Merged
pub mod United
use cpam.Base.{
  ℕ, zero, suc, ◌+◌, ◌*◌, Bool, true, false, Option, none, some, List, [], ◌∷◌, leb, length,
  if◌then◌else◌,
}
use cpam.Node.{Node, empty, regular, compressed, size, is_empty, compressed_node_elms}
use cpam.Node.Iterate.{entries}
use cpam.Balance.{node_join}
use cpam.Seq.{with_parts, expose, build_tree}
use cpam.Entry.{Entry}
use cpam.Map.Insert.{combine_values}
use cpam.Map.Split.{SplitInfo, split}

abbrev pub base_case_size : ℕ → ℕ
base_case_size B = 8 * B + 2

module _ {ℓ κ μ} {E : Type ℓ} {K : Type κ} {V : Type μ} (ent : Entry E K V) where
  open ent use {get_key, get_val, set_val, comp}

  -- The three loops of `union_bc` over stack[i..nA] and stack[j..nB]: what they append to `output`.
  unfoldable pub union_run : (V → V → V) → List E → List E → List E
  union_run op [] ys = ys
  union_run op (x ∷ xs) [] = x ∷ xs
  union_run op (x ∷ xs) (y ∷ ys) =
      let on_left = x ∷ union_run op xs (y ∷ ys) in
      let on_right = y ∷ union_run op (x ∷ xs) ys in
      let both = set_val x (op (get_val y) (get_val x)) ∷ union_run op xs ys in
      if comp (get_key x) (get_key y)
      then on_left
      else if comp (get_key y) (get_key x)
      then on_right
      else both

module _ {ℓ κ μ} {E : Type ℓ} {K : Type κ} {V : Type μ} (ent : Entry E K V) (B : ℕ) where
  open ent use {get_key}

  -- `union_bc` behind its assert. `uniont` calls union_bc where the size fields of both trees come to at
  -- most the bound of the assert, so that the assert holds in trees of fewer than 2 ^ 32 entries, and is
  -- written with this function.
  unfoldable pub merged_union : Node E → Node E → (V → V → V) → Node E
  merged_union b1 b2 op =
      build_tree B (union_run ent op (compressed_node_elms b1) (compressed_node_elms b2))

  -- The entries of both trees are written to `stack`, which has room for kBaseCaseSize + 1: none where the
  -- assert that at most kBaseCaseSize were written fails.
  unfoldable pub union_bc : Node E → Node E → (V → V → V) → Option (Node E)
  union_bc b1 b2 op =
      if leb (length (compressed_node_elms b1) + length (compressed_node_elms b2))
        (base_case_size B)
      then some (merged_union b1 b2 op)
      else none

  -- The entry of the new root: `combine_values(m2, *sp1.mid, true, op)`, where there is such an entry.
  abbrev pub united_root : (V → V → V) → E → Option E → E
  united_root op e none = e
  united_root op e (some old) = combine_values ent e old true op

  -- `uniont`, on fuel: b2 is exposed in each call, the two recursive calls run in parallel.
  -- Only a block without entries, which no operation builds, has no root to expose; the code has no
  -- answer for it, and here it stands for no entries.
  unfoldable pub union_loop : ℕ → Node E → Node E → (V → V → V) → Node E
  union_loop zero b1 b2 op = empty
  union_loop (suc fuel) b1 b2 op =
      let halves =
        with_parts b1
          (λ l2 e r2.
            let sp1 = split ent B b1 (get_key e) in
            let l = union_loop fuel sp1.l l2 op in
            let r = union_loop fuel sp1.r r2 op in node_join B l r (united_root op e sp1.mid))
          (expose B b2) in
      if is_empty b1
      then b2
      else if is_empty b2
      then b1
      else if leb (size b1 + size b2) (base_case_size B)
      then merged_union b1 b2 op
      else halves

  unfoldable pub uniont : Node E → Node E → (V → V → V) → Node E
  uniont b1 b2 op = union_loop (suc (length (entries b2))) b1 b2 op
