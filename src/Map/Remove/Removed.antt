-- ===== src/Map/Remove/Removed.antt =====
-- What a removal leaves.
use cpam.Base.{
  ℕ, zero, suc, ◌<◌, ◌≡◌, refl, sym, ◌∙◌, ◌||◌, Option, none, List, [], ◌∷◌, ◌++◌, if◌then◌else◌,
  if-split, length, arith, append-nil, append_assoc,
}
use cpam.Node.{Node, empty, regular, compressed, decode}
use cpam.Node.Iterate.{entries, iterate_seq-entries}
use cpam.Seq.Contents.{build_tree-Holds}
use cpam.Entry.{Entry}
use cpam.Entry.Sorted.{IsSorted, Above, lookup, lookup-Above, comp_asym}
use cpam.Entry.Refines.{
  Refines, Refines-ext, Refines-of_Holds, AllBelow-under, AllAbove-over, under, over, IsParts,
  join2-Refines, expose-Refines, regular-IsParts, empty-Refines,
}
use cpam.Map.Insert.Inserted.{updated, inserted_left, inserted_right}
use cpam.Map.Remove.{keep_others, remove_compressed3, remove_at, remove_loop, my_remove, deletet}

module _ {ℓ κ μ} {E : Type ℓ} {K : Type κ} {V : Type μ} (ent : Entry E K V) where
  open ent use {get_key, comp, comp_irrefl, comp_trans, comp_total}

  -- The entries of the other keys.
  abbrev pub others : K → List E → List E
  others k [] = []
  others k (x ∷ xs) =
      let rest = others k xs in if comp (get_key x) k || comp k (get_key x) then x ∷ rest else rest

  decode-keep_others :
      (k : K) (es buffer : List E) → decode (keep_others ent k) es buffer ≡ buffer ++ others k es
  unfolding decode
  decode-keep_others k [] buffer = sym (append-nil buffer)
  decode-keep_others k (x ∷ es) buffer =
      decode-keep_others k es (keep_others ent k buffer x)
      ∙ ground (arith, append_assoc buffer (x ∷ []) (others k es))

  others-Above : (a k : K) (xs : List E) → Above ent a xs → Above ent a (others k xs)
  others-Above a k [] h = tt
  others-Above a k (x ∷ xs) (p, h) =
      if-split (Above ent a) (comp (get_key x) k || comp k (get_key x))
        (λ _. (p, others-Above a k xs h)) λ _. others-Above a k xs h

  others-IsSorted : (k : K) (xs : List E) → IsSorted ent xs → IsSorted ent (others k xs)
  others-IsSorted k [] s = tt
  others-IsSorted k (x ∷ xs) (above, s) =
      if-split (IsSorted ent) (comp (get_key x) k || comp k (get_key x))
        (λ _. (others-Above (get_key x) k xs above, others-IsSorted k xs s))
        λ _. others-IsSorted k xs s

  lookup-others :
      (q k : K) (xs : List E)
      → IsSorted ent xs
      → lookup ent q (others k xs) ≡ updated ent (λ p. lookup ent p xs) k none q
  lookup-others q k [] s = ground arith
  lookup-others q k (x ∷ xs) (above, s) = ground (
    arith,
    lookup-others q k xs s,
    comp_total q (get_key x),
    comp_total k (get_key x),
    comp_irrefl k,
    lookup-Above ent (get_key x) xs above,
  )

module _ {ℓ κ μ} {E : Type ℓ} {K : Type κ} {V : Type μ} (ent : Entry E K V) (B : ℕ)
    (pos : 0 < B) where
  open ent use {get_key, comp, comp_irrefl, comp_trans, comp_total}

  -- A block loses the entry of the key.
  pub remove_compressed3-Refines :
      {m : K → Option E} (b : Node E) (k : K)
      → Refines ent m b
      → Refines ent (updated ent m k none) (remove_compressed3 ent B b k)
  unfolding remove_compressed3
  remove_compressed3-Refines b k h =
      let run =
        iterate_seq-entries (keep_others ent k) b [] ∙ decode-keep_others ent k (entries b) [] in
      rw run (
        Refines-ext ent _ (λ q. lookup-others ent q k (entries b) h.sorted ∙ rw (h.reads q) refl)
          (Refines-of_Holds ent _ (build_tree-Holds B pos (others ent k (entries b)))
            (others-IsSorted ent k (entries b) h.sorted)))

  remove_at-Refines :
      {m : K → Option E} {n : ℕ} (k : K) (lc : Node E) (e : E) (rc new_lc new_rc : Node E)
      → IsParts ent m n lc e rc
      → Refines ent (updated ent (under ent (get_key e) m) k none) new_lc
      → Refines ent (updated ent (over ent (get_key e) m) k none) new_rc
      → Refines ent (updated ent m k none) (remove_at ent B k lc e rc new_lc new_rc)
  remove_at-Refines {m = m} k lc e rc new_lc new_rc p hl hr =
      if-split (Refines ent (updated ent m k none)) (comp (get_key e) k)
        (λ lt. inserted_right ent B pos lc e rc new_rc k none p lt hr)
        λ ge.
          if-split (Refines ent (updated ent m k none)) (comp k (get_key e))
            (λ gt. inserted_left ent B pos lc e rc new_lc k none p gt hl)
            λ le.
              Refines-ext ent _
                (λ q. ground (arith, comp_total k (get_key e) le ge, comp_asym ent q (get_key e)))
                (join2-Refines ent B pos (get_key e) lc rc p.on_left p.on_right
                  (AllBelow-under ent (get_key e) m) (AllAbove-over ent (get_key e) m))

  remove_loop-Refines :
      {m : K → Option E} (fuel : ℕ) (b : Node E) (k : K)
      → length (entries b) < fuel
      → Refines ent m b
      → Refines ent (updated ent m k none) (remove_loop ent B fuel b k)
  unfolding remove_loop
  remove_loop-Refines zero b k h r = absurd (omega arith)
  remove_loop-Refines {m = m} (suc fuel) b k h r =
      expose-Refines ent B pos (Refines ent (updated ent m k none)) _ _ b r
        (λ missing. Refines-ext ent empty (λ q. ground (arith, missing q)) (empty-Refines ent))
        λ lc e rc p.
          remove_at-Refines k lc e rc _ _ p
            (remove_loop-Refines {m = under ent (get_key e) m} fuel lc k
              (omega (arith, p.left_shorter)) p.on_left)
            (remove_loop-Refines {m = over ent (get_key e) m} fuel rc k
              (omega (arith, p.right_shorter)) p.on_right)

  my_remove-Refines :
      {m : K → Option E} (b : Node E) (k : K)
      → Refines ent m b
      → Refines ent (updated ent m k none) (my_remove ent B b k)
  unfolding my_remove
  my_remove-Refines b k r = remove_loop-Refines (suc (length (entries b))) b k (omega arith) r

  -- For blocks of a positive size B and a tree that refines m: `deletet` returns a tree that
  -- refines m without an answer to the key, and with m's answers to all other keys.
  pub deletet-Refines :
      {m : K → Option E} (b : Node E) (k : K)
      → Refines ent m b
      → Refines ent (updated ent m k none) (deletet ent B b k)
  unfolding deletet
  deletet-Refines empty k h =
      Refines-ext ent empty (λ q. ground (arith, h.reads q)) (empty-Refines ent)
  deletet-Refines (compressed es) k h = remove_compressed3-Refines (compressed es) k h
  deletet-Refines {m = m} (regular s lc e rc) k h =
      let p = regular-IsParts ent s lc e rc h in
      remove_at-Refines k lc e rc _ _ p
        (my_remove-Refines {m = under ent (get_key e) m} lc k p.on_left)
        (my_remove-Refines {m = over ent (get_key e) m} rc k p.on_right)
