-- ===== src/Map/MultiInsert/Merged.antt =====
-- What the insertion of a sorted array yields.
use cpam.Base.{
  ℕ, zero, suc, ◌+◌, ◌<◌, ◌≡◌, refl, sym, ap, ap₂, ◌∙◌, true, false, Option, none, some, List, [],
  ◌∷◌, leb, ◌==◌, length, take, drop, if-split, if-both, arith,
}
use cpam.Search.{binary_search}
use cpam.Search.Agree.{binary_search-eq_linear_search}
use cpam.Node.{Node, size, is_empty, compressed_node_elms}
use cpam.Node.Iterate.{entries, iterate_seq-push}
use cpam.Balance.{node_join}
use cpam.Seq.{from_array}
use cpam.Seq.Contents.{build_tree-Holds, from_array-Holds}
use cpam.Entry.{Entry}
use cpam.Entry.Sorted.{IsSorted, lookup}
use cpam.Entry.Refines.{
  Refines, Refines-ext, Refines-of_Holds, under, over, expose-Refines, IsParts,
}
use cpam.Entry.Sides.{zipped, joined_sides}
use cpam.Map.Insert.{combine_values}
use cpam.Map.Insert.Inserted.{key-combine_values}
use cpam.Map.Union.{base_case_size}
use cpam.Map.Union.Merged.{combined, combined-none, union_run-IsSorted, lookup-union_run}
use cpam.Map.Union.United.{is_empty-none}
use cpam.Map.MultiInsert.{
  duplicate, past_duplicate, root_with, multiinsert_bc, multi_insert_loop, multi_insert_sorted,
}
use cpam.Map.MultiInsert.Arrays.{
  partitioned, split_point, take-IsSorted, drop-IsSorted, past_duplicate-IsSorted, lookup-before,
  lookup-behind, lookup-duplicate,
}

module _ {ℓ κ μ} {E : Type ℓ} {K : Type κ} {V : Type μ} (ent : Entry E K V) where
  open ent use {get_key, comp, comp_irrefl, comp_trans, comp_total}

  -- What a duplicate makes of an entry of the tree.
  abbrev pub inserted_over : (V → V → V) → E → E → E
  inserted_over op a b = combine_values ent a b false op

  key-root_with :
      (op : V → V → V) (e : E) (o : Option E) → get_key (root_with ent op e o) ≡ get_key e
  key-root_with op e none = refl
  key-root_with op e (some x) = key-combine_values ent e x false op

  combined-root_with :
      (op : V → V → V) (e : E) (o : Option E)
      → combined ent (inserted_over op) (some e) o ≡ some (root_with ent op e o)
  combined-root_with op e none = refl
  combined-root_with op e (some x) = refl

module _ {ℓ κ μ} {E : Type ℓ} {K : Type κ} {V : Type μ} (ent : Entry E K V) (B base : ℕ)
    (pos : 0 < B) where
  open ent use {get_key, comp}

  multiinsert_bc-Refines :
      {m : K → Option E} (b : Node E) (a : List E) (op : V → V → V)
      → Refines ent m b
      → IsSorted ent a
      → Refines ent
          (zipped ent (combined ent (inserted_over ent op)) m (λ q. lookup ent q a))
          (multiinsert_bc ent B base b a op)
  unfolding multiinsert_bc compressed_node_elms combine_values
  multiinsert_bc-Refines b a op h s =
      let flipped = λ (new old : V). op old new in
      rw (iterate_seq-push b []) (
        Refines-ext ent _
          (λ q. lookup-union_run ent q flipped (entries b) a h.sorted s ∙ rw (h.reads q) refl)
          (Refines-of_Holds ent _ (build_tree-Holds B pos _)
            (union_run-IsSorted ent flipped (entries b) a h.sorted s)))

  from_array-Refines :
      (a : List E) → IsSorted ent a → Refines ent (λ q. lookup ent q a) (from_array B a)
  from_array-Refines a s = Refines-of_Holds ent _ (from_array-Holds B pos a) s

  empty_array : (a : List E) (q : K) → length a == 0 ≡ true → lookup ent q a ≡ none
  empty_array [] q h = refl
  empty_array (x ∷ xs) q h = absurd (ground arith)

  abbrev found_at : K → List E → ℕ
  found_at k a = binary_search (λ x. comp (get_key x) k) base a

  found : (k : K) (a : List E) → IsSorted ent a → found_at k a ≡ split_point ent k a
  found k a s =
      binary_search-eq_linear_search (λ x. comp (get_key x) k) base a (partitioned ent k a s)

  -- The last lines of the recursive case, given what its two calls yield.
  inserted_at :
      (m : K → Option E) {c : ℕ} (op : V → V → V) (a : List E) (lc : Node E) (e : E)
      (rc l r : Node E)
      → IsParts ent m c lc e rc
      → IsSorted ent a
      → Refines ent
          (zipped ent
            (combined ent (inserted_over ent op))
            (under ent (get_key e) m)
            (λ q. lookup ent q (take (found_at (get_key e) a) a)))
          l
      → Refines ent
          (zipped ent
            (combined ent (inserted_over ent op))
            (over ent (get_key e) m)
            (λ q. lookup ent q (past_duplicate ent (get_key e) (drop (found_at (get_key e) a) a))))
          r
      → Refines ent (zipped ent (combined ent (inserted_over ent op)) m (λ q. lookup ent q a)) (
          node_join B l r
            (root_with ent op e (duplicate ent (get_key e) (drop (found_at (get_key e) a) a))))
  inserted_at m op a lc e rc l r p s hl hr =
      let g = combined ent (inserted_over ent op) in
      let k = get_key e in
      let same = found k a s in
      let twin = duplicate ent k (drop (found_at k a) a) in
      joined_sides ent g B k l (root_with ent op e twin) r pos refl (key-root_with ent op e twin)
        (ap₂ g p.at_root
            (lookup-duplicate ent k a s ∙ ap (λ n. duplicate ent k (drop n a)) (sym same))
          ∙ combined-root_with ent op e twin)
        (Refines-ext ent l
          (λ q.
            ap (g (under ent k m q))
              (ap (λ n. lookup ent q (take n a)) same ∙ lookup-before ent q k a s))
          hl)
        (Refines-ext ent r
          (λ q. ap (g (over ent k m q)) (
            ap (λ n. lookup ent q (past_duplicate ent k (drop n a))) same
            ∙ lookup-behind ent q k a s))
          hr)

  multi_insert_loop-Refines :
      {m : K → Option E} (fuel : ℕ) (b : Node E) (a : List E) (op : V → V → V)
      → length (entries b) < fuel
      → Refines ent m b
      → IsSorted ent a
      → Refines ent
          (zipped ent (combined ent (inserted_over ent op)) m (λ q. lookup ent q a))
          (multi_insert_loop ent B base fuel b a op)
  unfolding multi_insert_loop
  multi_insert_loop-Refines zero b a op h r s = absurd (omega arith)
  multi_insert_loop-Refines {m = m} (suc fuel) b a op h r s =
      let g = combined ent (inserted_over ent op) in
      let Goal = Refines ent (zipped ent g m (λ q. lookup ent q a)) in
      let nothing = λ (missing : (q : K) → m q ≡ none).
        Refines-ext ent _ (λ q. rw (missing q) refl) (from_array-Refines a s) in
      if-split Goal (is_empty b) (λ e1. nothing λ q. is_empty-none ent b q r e1)
        λ _.
          if-split Goal (length a == 0)
            (λ e2. Refines-ext ent b (λ q. rw (empty_array a q e2) (combined-none ent _ (m q))) r)
            λ _.
              if-both Goal (leb (size b + length a) (base_case_size B))
                (multiinsert_bc-Refines b a op r s)
                (expose-Refines ent B pos Goal _ _ b r nothing λ lc e rc p.
                  let k = get_key e in
                  let mid = found_at k a in
                  inserted_at m op a lc e rc _ _ p s
                    (multi_insert_loop-Refines {m = under ent k m} fuel lc (take mid a) op
                      (omega (arith, p.left_shorter)) p.on_left (take-IsSorted ent mid a s))
                    (multi_insert_loop-Refines {m = over ent k m} fuel rc
                      (past_duplicate ent k (drop mid a)) op (omega (arith, p.right_shorter))
                      p.on_right
                      (past_duplicate-IsSorted ent k (drop mid a) (drop-IsSorted ent mid a s))))

  -- For blocks of a positive size B, every base size of the binary search, a tree that refines m
  -- and an array in the order of its keys: `multi_insert_sorted` returns a tree that refines m with
  -- the array's entries put, in which a key of both has the tree's entry with its value combined as
  -- op(old, new).
  pub multi_insert_sorted-Refines :
      {m : K → Option E} (b : Node E) (a : List E) (op : V → V → V)
      → Refines ent m b
      → IsSorted ent a
      → Refines ent
          (zipped ent (combined ent (inserted_over ent op)) m (λ q. lookup ent q a))
          (multi_insert_sorted ent B base b a op)
  unfolding multi_insert_sorted
  multi_insert_sorted-Refines b a op r s =
      multi_insert_loop-Refines (suc (length (entries b))) b a op (omega arith) r s
