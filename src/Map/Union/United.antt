-- ===== src/Map/Union/United.antt =====
-- What a union holds.
use cpam.Base.{
  u32_mod, ℕ, zero, suc, ◌+◌, ◌<◌, ◌≡◌, refl, sym, ap, ap₂, ◌∙◌, true, Option, none, some, [], leb,
  length, if-split, if-both, arith, ◌≤◌,
}
use cpam.Node.{Node, empty, regular, compressed, size, is_empty, compressed_node_elms}
use native.Mathlib.Nat.{mod-eq_of_lt}
use cpam.Node.Contents.{IsSized, size-IsSized}
use cpam.Node.Iterate.{entries, iterate_seq-push}
use cpam.Seq.Contents.{build_tree-Holds}
use cpam.Entry.{Entry}
use cpam.Entry.Refines.{
  Refines, Refines-ext, Refines-of_Holds, Refines-key, under, over, expose-Refines,
}
use cpam.Entry.Sides.{zipped, joined_sides}
use cpam.Map.Insert.{combine_values}
use cpam.Map.Insert.Inserted.{key-combine_values}
use cpam.Map.Split.{split}
use cpam.Map.Split.Halves.{split-IsSplit}
use cpam.Map.Union.{base_case_size, union_bc, merged_union, united_root, union_loop, uniont}
use cpam.Map.Union.Merged.{
  combined, combined-none, merged_entry, union_run-IsSorted, lookup-union_run,
}

module _ {ℓ κ μ} {E : Type ℓ} {K : Type κ} {V : Type μ} (ent : Entry E K V) where
  -- An empty tree has no answers.
  pub is_empty-none :
      {m : K → Option E} (b : Node E) (q : K) → Refines ent m b → is_empty b ≡ true → m q ≡ none
  is_empty-none empty q h e = sym (h.reads q)
  is_empty-none (regular s l x r) q h e = cc
  is_empty-none (compressed es) q h e = cc

module _ {ℓ κ μ} {E : Type ℓ} {K : Type κ} {V : Type μ} (ent : Entry E K V) (B : ℕ)
    (pos : 0 < B) where
  open ent use {
    get_key, get_val, set_val, comp, comp_irrefl, comp_total, get_key-set_val, get_val-set_val,
    entry_ext,
  }

  merged_union-Refines :
      {m n : K → Option E} (b1 b2 : Node E) (op : V → V → V)
      → Refines ent m b1
      → Refines ent n b2
      → Refines ent
          (λ q. combined ent (merged_entry ent op) (m q) (n q))
          (merged_union ent B b1 b2 op)
  unfolding merged_union compressed_node_elms
  merged_union-Refines b1 b2 op h1 h2 =
      rw (iterate_seq-push b1 [], iterate_seq-push b2 [])
        (Refines-ext ent _
          (λ q.
            lookup-union_run ent q op (entries b1) (entries b2) h1.sorted h2.sorted
            ∙ rw (h1.reads q, h2.reads q) refl)
          (Refines-of_Holds ent _ (build_tree-Holds B pos _)
            (union_run-IsSorted ent op (entries b1) (entries b2) h1.sorted h2.sorted)))

  -- The guard of `uniont` implies the assert of `union_bc`, where no size is past 32 bits.
  union_bc-under_guard :
      (b1 b2 : Node E) (op : V → V → V)
      → IsSized b1
      → IsSized b2
      → length (entries b1) < u32_mod
      → length (entries b2) < u32_mod
      → leb (size b1 + size b2) (base_case_size B) ≡ true
      → union_bc ent B b1 b2 op ≡ some (merged_union ent B b1 b2 op)
  unfolding union_bc compressed_node_elms
  union_bc-under_guard b1 b2 op h1 h2 small1 small2 guard =
      let s1 : size b1 ≡ length (entries b1) = size-IsSized b1 h1 ∙ mod-eq_of_lt small1 in
      let s2 : size b2 ≡ length (entries b2) = size-IsSized b2 h2 ∙ mod-eq_of_lt small2 in
      let fits : leb (length (entries b1) + length (entries b2)) (base_case_size B) ≡ true =
        rw (s1, s2) at guard in
      rw (iterate_seq-push b1 [], iterate_seq-push b2 [], fits) refl

  -- For blocks of a positive size B and trees that refine m and n, with at most 8 * B + 2 entries
  -- together: `union_bc` keeps inside its buffer and returns a tree that refines their union, in
  -- which a key of both maps has the first map's entry with the value op(v2, v1), the second map's
  -- value first.
  pub union_bc-Refines :
      {m n : K → Option E} (b1 b2 : Node E) (op : V → V → V)
      → Refines ent m b1
      → Refines ent n b2
      → length (entries b1) + length (entries b2) ≤ base_case_size B
      → (t : Node E) × (union_bc ent B b1 b2 op ≡ some t)
        × Refines ent (λ q. combined ent (merged_entry ent op) (m q) (n q)) t
  unfolding union_bc compressed_node_elms
  union_bc-Refines b1 b2 op h1 h2 small =
      let fits : leb (length (entries b1) + length (entries b2)) (base_case_size B) ≡ true =
        ground arith in
      (
        merged_union ent B b1 b2 op,
        rw (iterate_seq-push b1 [], iterate_seq-push b2 [], fits) refl,
        merged_union-Refines b1 b2 op h1 h2,
      )

  key-united_root :
      (op : V → V → V) (e : E) (o : Option E) → get_key (united_root ent B op e o) ≡ get_key e
  key-united_root op e none = refl
  key-united_root op e (some old) = key-combine_values ent e old true op

  -- Where the order of the values does not matter, the new root is what a merge would put.
  combined-united_root :
      (op : V → V → V) (e : E) (o : Option E)
      → ((a b : V) → op a b ≡ op b a)
      → ((x : E) → o ≡ some x → get_key x ≡ get_key e)
      → combined ent (merged_entry ent op) o (some e) ≡ some (united_root ent B op e o)
  unfolding combine_values
  combined-united_root op e none comm keyed = refl
  combined-united_root op e (some old) comm keyed =
      let v = op (get_val old) (get_val e) in
      let w = op (get_val e) (get_val old) in
      ap some (
        entry_ext (set_val old w) (set_val e v)
          (get_key-set_val old w ∙ keyed old refl ∙ sym (get_key-set_val e v))
          (get_val-set_val old w ∙ comm (get_val e) (get_val old) ∙ sym (get_val-set_val e v)))

  union_loop-Refines :
      {m n : K → Option E} (fuel : ℕ) (b1 b2 : Node E) (op : V → V → V)
      → ((a b : V) → op a b ≡ op b a)
      → length (entries b2) < fuel
      → Refines ent m b1
      → Refines ent n b2
      → Refines ent
          (zipped ent (combined ent (merged_entry ent op)) m n)
          (union_loop ent B fuel b1 b2 op)
  unfolding union_loop
  union_loop-Refines zero b1 b2 op comm h h1 h2 = absurd (omega arith)
  union_loop-Refines {m = m} {n = n} (suc fuel) b1 b2 op comm h h1 h2 =
      let g = combined ent (merged_entry ent op) in
      let Goal = Refines ent (zipped ent g m n) in
      if-split Goal (is_empty b1)
        (λ e1. Refines-ext ent b2 (λ q. rw (is_empty-none ent b1 q h1 e1) refl) h2)
        λ _.
          if-split Goal (is_empty b2)
            (λ e2.
              Refines-ext ent b1
                (λ q. rw (is_empty-none ent b2 q h2 e2) (combined-none ent _ (m q))) h1)
            λ _.
              if-both Goal (leb (size b1 + size b2) (base_case_size B))
                (merged_union-Refines b1 b2 op h1 h2)
                (expose-Refines ent B pos Goal _ _ b2 h2
                  (λ missing.
                    Refines-ext ent b1 (λ q. rw (missing q) (combined-none ent _ (m q))) h1)
                  λ l2 e r2 p.
                    let k = get_key e in
                    let sp1 = split ent B b1 k in
                    let s = split-IsSplit ent B pos b1 k h1 in
                    joined_sides ent g B k _ (united_root ent B op e sp1.mid) _ pos refl
                      (key-united_root op e sp1.mid)
                      (ap₂ g (sym s.at_key) p.at_root
                        ∙ combined-united_root op e sp1.mid comm
                            (λ x found. Refines-key ent b1 k h1 (sym s.at_key ∙ found)))
                      (union_loop-Refines {m = under ent k m} {n = under ent k n} fuel sp1.l l2 op
                        comm (omega (arith, p.left_shorter)) s.smaller p.on_left)
                      (union_loop-Refines {m = over ent k m} {n = over ent k n} fuel sp1.r r2 op
                        comm (omega (arith, p.right_shorter)) s.greater p.on_right))

  -- For blocks of a positive size B, trees that refine the maps m and n, and a commutative
  -- operation: `uniont` returns a tree that refines their union, in which a key of both maps has
  -- the first map's entry with the two values combined and any other key keeps its entry.
  pub uniont-Refines :
      {m n : K → Option E} (b1 b2 : Node E) (op : V → V → V)
      → ((a b : V) → op a b ≡ op b a)
      → Refines ent m b1
      → Refines ent n b2
      → Refines ent (zipped ent (combined ent (merged_entry ent op)) m n) (uniont ent B b1 b2 op)
  unfolding uniont
  uniont-Refines b1 b2 op comm h1 h2 =
      union_loop-Refines (suc (length (entries b2))) b1 b2 op comm (omega arith) h1 h2
