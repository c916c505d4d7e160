-- ===== src/Map/Intersect/Common.antt =====
-- What an intersection holds.
use cpam.Base.{
  u32_mod, ℕ, zero, suc, ◌+◌, ◌<◌, ◌≡◌, refl, sym, ap, ap₂, ◌∙◌, Option, none, some, [], leb,
  length, if-split, if-both, arith, ◌≤◌, true,
}
use cpam.Node.{Node, empty, size, is_empty, compressed_node_elms}
use native.Mathlib.Nat.{mod-eq_of_lt}
use cpam.Node.Contents.{IsSized, size-IsSized}
use cpam.Node.Iterate.{entries, iterate_seq-push}
use cpam.Seq.{join}
use cpam.Seq.Contents.{build_tree-Holds}
use cpam.Entry.{Entry}
use cpam.Entry.Refines.{
  Refines, Refines-ext, Refines-of_Holds, Refines-key, under, over, expose-Refines, empty-Refines,
}
use cpam.Entry.Sides.{zipped, joined_sides, joined2_sides}
use cpam.Map.Split.{split}
use cpam.Map.Split.Halves.{split-IsSplit}
use cpam.Map.Union.{base_case_size}
use cpam.Map.Union.Merged.{merged_entry}
use cpam.Map.Union.United.{is_empty-none}
use cpam.Map.Intersect.{intersect_bc, merged_intersect, intersect_at, intersect_loop, intersect}
use cpam.Map.Intersect.Merged.{common, common-none, intersect_run-IsSorted, lookup-intersect_run}

module _ {ℓ κ μ} {E : Type ℓ} {K : Type κ} {V : Type μ} (ent : Entry E K V) (B : ℕ)
    (pos : 0 < B) where
  open ent use {
    get_key, get_val, set_val, to_entry, comp, get_key-set_val, get_val-set_val, get_key-to_entry,
    get_val-to_entry, entry_ext,
  }

  merged_intersect-Refines :
      {m n : K → Option E} (b1 b2 : Node E) (op : V → V → V)
      → Refines ent m b1
      → Refines ent n b2
      → Refines ent
          (zipped ent (common ent (merged_entry ent op)) m n)
          (merged_intersect ent B b1 b2 op)
  unfolding merged_intersect compressed_node_elms
  merged_intersect-Refines b1 b2 op h1 h2 =
      rw (iterate_seq-push b1 [], iterate_seq-push b2 [])
        (Refines-ext ent _
          (λ q.
            lookup-intersect_run ent q op (entries b1) (entries b2) h1.sorted h2.sorted
            ∙ rw (h1.reads q, h2.reads q) refl)
          (Refines-of_Holds ent _ (build_tree-Holds B pos _)
            (intersect_run-IsSorted ent op (entries b1) (entries b2) h1.sorted)))

  -- The guard of `intersect` implies the assert of `intersect_bc`, where no size is past 32 bits.
  intersect_bc-under_guard :
      (b1 b2 : Node E) (op : V → V → V)
      → IsSized b1
      → IsSized b2
      → length (entries b1) < u32_mod
      → length (entries b2) < u32_mod
      → leb (size b1 + size b2) (base_case_size B) ≡ true
      → intersect_bc ent B b1 b2 op ≡ some (merged_intersect ent B b1 b2 op)
  unfolding intersect_bc compressed_node_elms
  intersect_bc-under_guard b1 b2 op h1 h2 small1 small2 guard =
      let s1 : size b1 ≡ length (entries b1) = size-IsSized b1 h1 ∙ mod-eq_of_lt small1 in
      let s2 : size b2 ≡ length (entries b2) = size-IsSized b2 h2 ∙ mod-eq_of_lt small2 in
      let fits : leb (length (entries b1) + length (entries b2)) (base_case_size B) ≡ true =
        rw (s1, s2) at guard in
      rw (iterate_seq-push b1 [], iterate_seq-push b2 [], fits) refl

  -- For blocks of a positive size B and trees that refine m and n, with at most 8 * B + 2 entries
  -- together: `intersect_bc` keeps inside its buffer and returns a tree that refines the map of the
  -- keys of both, each with the first map's entry with the value op(v2, v1), the second map's value
  -- first.
  pub intersect_bc-Refines :
      {m n : K → Option E} (b1 b2 : Node E) (op : V → V → V)
      → Refines ent m b1
      → Refines ent n b2
      → length (entries b1) + length (entries b2) ≤ base_case_size B
      → (t : Node E) × (intersect_bc ent B b1 b2 op ≡ some t)
        × Refines ent (zipped ent (common ent (merged_entry ent op)) m n) t
  unfolding intersect_bc compressed_node_elms
  intersect_bc-Refines b1 b2 op h1 h2 small =
      let fits : leb (length (entries b1) + length (entries b2)) (base_case_size B) ≡ true =
        ground arith in
      (
        merged_intersect ent B b1 b2 op,
        rw (iterate_seq-push b1 [], iterate_seq-push b2 [], fits) refl,
        merged_intersect-Refines b1 b2 op h1 h2,
      )

  -- The new entry of the recursive case is what a merge would put, for a commutative operation.
  common_entry :
      (op : V → V → V) (e1 e2 : E)
      → ((a b : V) → op a b ≡ op b a)
      → get_key e1 ≡ get_key e2
      → merged_entry ent op e1 e2 ≡ to_entry (get_key e2) (op (get_val e1) (get_val e2))
  common_entry op e1 e2 comm same =
      let v = op (get_val e1) (get_val e2) in
      let w = op (get_val e2) (get_val e1) in
      entry_ext (set_val e1 w) (to_entry (get_key e2) v)
        (get_key-set_val e1 w ∙ same ∙ sym (get_key-to_entry (get_key e2) v))
        (get_val-set_val e1 w
          ∙ comm (get_val e2) (get_val e1)
          ∙ sym (get_val-to_entry (get_key e2) v))

  intersect_at-Refines :
      (m n : K → Option E) (op : V → V → V) (e2 : E) (found : Option E) (l r : Node E)
      → ((a b : V) → op a b ≡ op b a)
      → m (get_key e2) ≡ found
      → n (get_key e2) ≡ some e2
      → ((x : E) → found ≡ some x → get_key x ≡ get_key e2)
      → Refines ent
          (zipped ent
            (common ent (merged_entry ent op))
            (under ent (get_key e2) m)
            (under ent (get_key e2) n))
          l
      → Refines ent
          (zipped ent
            (common ent (merged_entry ent op))
            (over ent (get_key e2) m)
            (over ent (get_key e2) n))
          r
      → Refines ent
          (zipped ent (common ent (merged_entry ent op)) m n)
          (intersect_at ent B op e2 found l r)
  unfolding join
  intersect_at-Refines m n op e2 none l r comm hm hn keyed hl hr =
      let g = common ent (merged_entry ent op) in
      joined2_sides ent g B (get_key e2) l r pos refl (ap₂ g hm hn) hl hr
  intersect_at-Refines m n op e2 (some e1) l r comm hm hn keyed hl hr =
      let g = common ent (merged_entry ent op) in
      joined_sides ent g B (get_key e2) l (to_entry (get_key e2) (op (get_val e1) (get_val e2))) r
        pos refl (get_key-to_entry (get_key e2) _)
        (ap₂ g hm hn ∙ ap some (common_entry op e1 e2 comm (keyed e1 refl))) hl hr

  intersect_loop-Refines :
      {m n : K → Option E} (fuel : ℕ) (b1 b2 : Node E) (op : V → V → V)
      → ((a b : V) → op a b ≡ op b a)
      → length (entries b2) < fuel
      → Refines ent m b1
      → Refines ent n b2
      → Refines ent
          (zipped ent (common ent (merged_entry ent op)) m n)
          (intersect_loop ent B fuel b1 b2 op)
  unfolding intersect_loop
  intersect_loop-Refines zero b1 b2 op comm h h1 h2 = absurd (omega arith)
  intersect_loop-Refines {m = m} {n = n} (suc fuel) b1 b2 op comm h h1 h2 =
      let g = common ent (merged_entry ent op) in
      let Goal = Refines ent (zipped ent g m n) in
      let nothing = λ (missing : (q : K) → n q ≡ none).
        Refines-ext ent empty (λ q. sym (ap (g (m q)) (missing q) ∙ common-none ent _ (m q)))
          (empty-Refines ent) in
      if-split Goal (is_empty b1)
        (λ e1.
          Refines-ext ent empty (λ q. rw (is_empty-none ent b1 q h1 e1) refl) (empty-Refines ent))
        λ _.
          if-split Goal (is_empty b2) (λ e2. nothing λ q. is_empty-none ent b2 q h2 e2)
            λ _.
              if-both Goal (leb (size b1 + size b2) (base_case_size B))
                (merged_intersect-Refines b1 b2 op h1 h2)
                (expose-Refines ent B pos Goal _ _ b2 h2 nothing λ l2 e2 r2 p.
                  let k = get_key e2 in
                  let sp1 = split ent B b1 k in
                  let s = split-IsSplit ent B pos b1 k h1 in
                  intersect_at-Refines m n op e2 sp1.mid _ _ comm (sym s.at_key) p.at_root
                    (λ x found. Refines-key ent b1 k h1 (sym s.at_key ∙ found))
                    (intersect_loop-Refines {m = under ent k m} {n = under ent k n} fuel sp1.l l2 op
                      comm (omega (arith, p.left_shorter)) s.smaller p.on_left)
                    (intersect_loop-Refines {m = over ent k m} {n = over ent k n} fuel sp1.r r2 op
                      comm (omega (arith, p.right_shorter)) s.greater p.on_right))

  -- For blocks of a positive size B, trees that refine m and n, and a commutative operation:
  -- `intersect` returns a tree that refines the map of the keys of both, each with the first map's
  -- entry with the two values combined.
  pub intersect-Refines :
      {m n : K → Option E} (b1 b2 : Node E) (op : V → V → V)
      → ((a b : V) → op a b ≡ op b a)
      → Refines ent m b1
      → Refines ent n b2
      → Refines ent (zipped ent (common ent (merged_entry ent op)) m n) (intersect ent B b1 b2 op)
  unfolding intersect
  intersect-Refines b1 b2 op comm h1 h2 =
      intersect_loop-Refines (suc (length (entries b2))) b1 b2 op comm (omega arith) h1 h2
