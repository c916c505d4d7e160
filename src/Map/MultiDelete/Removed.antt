-- ===== src/Map/MultiDelete/Removed.antt =====
-- What the deletion of a sorted array of keys leaves.
use cpam.Base.{
  ℕ, zero, suc, ◌<◌, ◌≡◌, refl, sym, ap, ap₂, ◌∙◌, true, false, Option, none, some, List, [], ◌∷◌,
  leb, ◌==◌, length, take, drop, if-split, if-both, arith,
}
use cpam.Search.{binary_search}
use cpam.Search.Agree.{binary_search-eq_linear_search}
use cpam.Node.{Node, empty, size, is_empty, compressed_node_elms}
use cpam.Node.Iterate.{entries, iterate_seq-push}
use cpam.Seq.Contents.{build_tree-Holds}
use cpam.Entry.{Entry, key_entry}
use cpam.Entry.Sorted.{IsSorted, Above, lookup, lookup_at, lookup-past_first, Above-trans}
use cpam.Entry.Refines.{
  Refines, Refines-ext, Refines-of_Holds, under, over, expose-Refines, empty-Refines, IsParts,
}
use cpam.Entry.Sides.{zipped, joined_sides, joined2_sides}
use cpam.Map.Union.{base_case_size}
use cpam.Map.Union.United.{is_empty-none}
use cpam.Map.Difference.Removed.{without, without-none}
use cpam.Map.MultiInsert.{duplicate, past_duplicate}
use cpam.Map.MultiInsert.Arrays.{
  partitioned, take-IsSorted, drop-IsSorted, past_duplicate-IsSorted, lookup-before, lookup-behind,
  lookup-duplicate,
}
use cpam.Map.MultiDelete.{
  delete_run, multidelete_bc, delete_at, multi_delete_loop, multi_delete_sorted,
}

module _ {ℓ κ μ} {E : Type ℓ} {K : Type κ} {V : Type μ} (ent : Entry E K V) where
  open ent use {get_key, comp, comp_irrefl, comp_trans, comp_total}

  -- The key that an array has for a key: an array of keys is a map of keys to themselves.
  abbrev pub key_in : List K → K → Option K
  key_in a q = lookup (key_entry ent) q a

  delete_run-Above :
      (a : K) (xs : List E) (ks : List K) → Above ent a xs → Above ent a (delete_run ent xs ks)
  unfolding delete_run
  delete_run-Above a [] ks h = tt
  delete_run-Above a (x ∷ xs) [] h = h
  delete_run-Above a (x ∷ xs) (k ∷ ks) (p, h) =
      if-split (Above ent a) (comp (get_key x) k) (λ _. (p, delete_run-Above a xs (k ∷ ks) h))
        λ _.
          if-split (Above ent a) (comp k (get_key x)) (λ _. delete_run-Above a (x ∷ xs) ks (p, h))
            λ _. delete_run-Above a xs ks h

  delete_run-IsSorted :
      (xs : List E) (ks : List K) → IsSorted ent xs → IsSorted ent (delete_run ent xs ks)
  unfolding delete_run
  delete_run-IsSorted [] ks s = tt
  delete_run-IsSorted (x ∷ xs) [] s = s
  delete_run-IsSorted (x ∷ xs) (k ∷ ks) (h, s) =
      if-split (IsSorted ent) (comp (get_key x) k)
        (λ _. (delete_run-Above (get_key x) xs (k ∷ ks) h, delete_run-IsSorted xs (k ∷ ks) s))
        λ _.
          if-split (IsSorted ent) (comp k (get_key x)) (λ _. delete_run-IsSorted (x ∷ xs) ks (h, s))
            λ _. delete_run-IsSorted xs ks s

  kept :
      (q : K) (x : E) (o a : Option E) (b : Option K)
      → o ≡ without a b
      → (comp (get_key x) q ≡ false → b ≡ none)
      → lookup_at ent q x o o ≡ without (lookup_at ent q x a a) b
  kept q x o a b h nothing = ground arith

  past_key :
      (q k : K) (o a : Option E) (b : Option K)
      → o ≡ without a b
      → (comp k q ≡ false → a ≡ none)
      → o ≡ without a (lookup_at (key_entry ent) q k b b)
  past_key q k o a b h nothing = ground (arith, without-none {E = E} b)

  dropped :
      (q : K) (x : E) (o a : Option E) (b : Option K)
      → o ≡ without a b
      → (comp (get_key x) q ≡ false → a ≡ none)
      → o ≡ without (lookup_at ent q x a a) (lookup_at (key_entry ent) q (get_key x) b b)
  dropped q x o a b h nothing = ground (arith, without-none {E = E} b)

  lookup-delete_run :
      (q : K) (xs : List E) (ks : List K)
      → IsSorted ent xs
      → IsSorted (key_entry ent) ks
      → lookup ent q (delete_run ent xs ks) ≡ without (lookup ent q xs) (key_in ks q)
  unfolding delete_run
  lookup-delete_run q [] ks s s' = sym (without-none (key_in ks q))
  lookup-delete_run q (x ∷ xs) [] s s' = refl
  lookup-delete_run q (x ∷ xs) (k ∷ ks) (h, s) (h', s') =
      let kx = get_key x in
      let Goal =
        λ (t : List E). lookup ent q t ≡ without (lookup ent q (x ∷ xs)) (key_in (k ∷ ks) q) in
      if-split Goal (comp kx k)
        (λ lt.
          kept q x _ (lookup ent q xs) (key_in (k ∷ ks) q)
            (lookup-delete_run q xs (k ∷ ks) s (h', s'))
            (lookup-past_first (key_entry ent) kx q (k ∷ ks)
              (lt, Above-trans (key_entry ent) kx k ks lt h')))
        λ ge.
          if-split Goal (comp k kx)
            (λ gt.
              past_key q k _ (lookup ent q (x ∷ xs)) (key_in ks q)
                (lookup-delete_run q (x ∷ xs) ks (h, s) s')
                (lookup-past_first ent k q (x ∷ xs) (gt, Above-trans ent k kx xs gt h)))
            λ le. rw (← comp_total kx k ge le) (
              dropped q x _ (lookup ent q xs) (key_in ks q) (lookup-delete_run q xs ks s s')
                (lookup-past_first ent kx q xs h))

module _ {ℓ κ μ} {E : Type ℓ} {K : Type κ} {V : Type μ} (ent : Entry E K V) (B base : ℕ)
    (pos : 0 < B) where
  open ent use {get_key, comp}

  multidelete_bc-Refines :
      {m : K → Option E} (b : Node E) (a : List K)
      → Refines ent m b
      → IsSorted (key_entry ent) a
      → Refines ent (zipped ent without m (key_in ent a)) (multidelete_bc ent B base b a)
  unfolding multidelete_bc compressed_node_elms
  multidelete_bc-Refines b a h s = rw (iterate_seq-push b []) (
      Refines-ext ent _
        (λ q. lookup-delete_run ent q (entries b) a h.sorted s ∙ rw (h.reads q) refl)
        (Refines-of_Holds ent _ (build_tree-Holds B pos _)
          (delete_run-IsSorted ent (entries b) a h.sorted)))

  delete_at-Refines :
      (m : K → Option E) (n : K → Option K) (e : E) (twin : Option K) (l r : Node E)
      → m (get_key e) ≡ some e
      → n (get_key e) ≡ twin
      → Refines ent (zipped ent without (under ent (get_key e) m) (under ent (get_key e) n)) l
      → Refines ent (zipped ent without (over ent (get_key e) m) (over ent (get_key e) n)) r
      → Refines ent (zipped ent without m n) (delete_at ent B base e twin l r)
  delete_at-Refines m n e none l r hm hn hl hr =
      joined_sides ent without B (get_key e) l e r pos refl refl (ap₂ without hm hn) hl hr
  delete_at-Refines m n e (some k) l r hm hn hl hr =
      joined2_sides ent without B (get_key e) l r pos refl (ap₂ without hm hn) hl hr

  abbrev found_at : K → List K → ℕ
  found_at bk a = binary_search (λ k. comp k bk) base a

  -- The last lines of the recursive case, given what its two calls yield.
  deleted_at :
      (m : K → Option E) {c : ℕ} (a : List K) (lc : Node E) (e : E) (rc l r : Node E)
      → IsParts ent m c lc e rc
      → IsSorted (key_entry ent) a
      → Refines ent
          (zipped ent without
            (under ent (get_key e) m)
            (key_in ent (take (found_at (get_key e) a) a)))
          l
      → Refines ent
          (zipped ent without (over ent (get_key e) m) (
            key_in ent
              (past_duplicate (key_entry ent) (get_key e) (drop (found_at (get_key e) a) a))))
          r
      → Refines ent (zipped ent without m (key_in ent a)) (
          delete_at ent B base e
            (duplicate (key_entry ent) (get_key e) (drop (found_at (get_key e) a) a))
            l
            r)
  deleted_at m a lc e rc l r p s hl hr =
      let k = get_key e in
      let ke = key_entry ent in
      let same = binary_search-eq_linear_search (λ x. comp x k) base a (partitioned ke k a s) in
      delete_at-Refines m (key_in ent a) e (duplicate ke k (drop (found_at k a) a)) l r p.at_root
        (lookup-duplicate ke k a s ∙ ap (λ n. duplicate ke k (drop n a)) (sym same))
        (Refines-ext ent l
          (λ q.
            ap (without (under ent k m q))
              (ap (λ n. key_in ent (take n a) q) same ∙ lookup-before ke q k a s))
          hl)
        (Refines-ext ent r
          (λ q. ap (without (over ent k m q)) (
            ap (λ n. key_in ent (past_duplicate ke k (drop n a)) q) same
            ∙ lookup-behind ke q k a s))
          hr)

  empty_array : (a : List K) (q : K) → length a == 0 ≡ true → key_in ent a q ≡ none
  empty_array [] q h = refl
  empty_array (x ∷ xs) q h = absurd (ground arith)

  multi_delete_loop-Refines :
      {m : K → Option E} (fuel : ℕ) (b : Node E) (a : List K)
      → length (entries b) < fuel
      → Refines ent m b
      → IsSorted (key_entry ent) a
      → Refines ent (zipped ent without m (key_in ent a)) (multi_delete_loop ent B base fuel b a)
  unfolding multi_delete_loop
  multi_delete_loop-Refines zero b a h r s = absurd (omega arith)
  multi_delete_loop-Refines {m = m} (suc fuel) b a h r s =
      let Goal = Refines ent (zipped ent without m (key_in ent a)) in
      let nothing = λ (missing : (q : K) → m q ≡ none).
        Refines-ext ent empty
          (λ q.
            sym (ap (λ o. without o (key_in ent a q)) (missing q) ∙ without-none (key_in ent a q)))
          (empty-Refines ent) in
      if-split Goal (is_empty b) (λ e1. nothing λ q. is_empty-none ent b q r e1)
        λ _.
          if-split Goal (length a == 0)
            (λ e2. Refines-ext ent b (λ q. rw (empty_array a q e2) refl) r)
            λ _. if-both Goal (leb (size b) (base_case_size B)) (multidelete_bc-Refines b a r s) (
              expose-Refines ent B pos Goal _ _ b r nothing λ lc e rc p.
                let k = get_key e in
                let mid = found_at k a in
                let behind = drop mid a in
                deleted_at m a lc e rc _ _ p s
                  (multi_delete_loop-Refines {m = under ent k m} fuel lc (take mid a)
                    (omega (arith, p.left_shorter)) p.on_left
                    (take-IsSorted (key_entry ent) mid a s))
                  (multi_delete_loop-Refines {m = over ent k m} fuel rc
                    (past_duplicate (key_entry ent) k behind) (omega (arith, p.right_shorter))
                    p.on_right
                    (past_duplicate-IsSorted (key_entry ent) k behind
                      (drop-IsSorted (key_entry ent) mid a s))))

  -- For blocks of a positive size B, every base size of the binary search, a tree that refines m
  -- and an array of keys in their order: `multi_delete_sorted` returns a tree that refines m on the
  -- keys that are not in the array, and has no others.
  pub multi_delete_sorted-Refines :
      {m : K → Option E} (b : Node E) (a : List K)
      → Refines ent m b
      → IsSorted (key_entry ent) a
      → Refines ent (zipped ent without m (key_in ent a)) (multi_delete_sorted ent B base b a)
  unfolding multi_delete_sorted
  multi_delete_sorted-Refines b a r s =
      multi_delete_loop-Refines (suc (length (entries b))) b a (omega arith) r s
