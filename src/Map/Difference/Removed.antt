-- ===== src/Map/Difference/Removed.antt =====
-- What a difference holds.
use cpam.Base.{
  ℕ, zero, suc, ◌+◌, ◌<◌, ◌≡◌, refl, sym, ap, ap₂, ◌∙◌, false, Option, none, some, List, [], ◌∷◌,
  leb, length, if-split, if-both, arith,
}
use cpam.Node.{Node, empty, size, is_empty, compressed_node_elms}
use cpam.Node.Iterate.{entries, iterate_seq-push}
use cpam.Seq.Contents.{build_tree-Holds}
use cpam.Entry.{Entry}
use cpam.Entry.Sorted.{IsSorted, Above, lookup, lookup_at, lookup-past_first, Above-trans}
use cpam.Entry.Refines.{
  Refines, Refines-ext, Refines-of_Holds, under, over, expose-Refines, empty-Refines,
}
use cpam.Entry.Sides.{zipped, joined_sides, joined2_sides}
use cpam.Map.Split.{split}
use cpam.Map.Split.Halves.{split-IsSplit}
use cpam.Map.Union.{base_case_size}
use cpam.Map.Union.United.{is_empty-none}
use cpam.Map.Difference.{difference_run, difference_bc, difference_at, difference_loop, difference}

-- The first map's answer to a key that the second does not have.
abbrev pub without {ℓ ν} : {E : Type ℓ} {X : Type ν} → Option E → Option X → Option E
without o none = o
without o (some b) = none

pub without-none {ℓ ν} : {E : Type ℓ} {X : Type ν} (o : Option X) → without {E = E} none o ≡ none
without-none none = refl
without-none (some b) = refl

module _ {ℓ κ μ} {E : Type ℓ} {K : Type κ} {V : Type μ} (ent : Entry E K V) where
  open ent use {get_key, comp, comp_irrefl, comp_trans, comp_total}

  difference_run-Above :
      (a : K) (xs ys : List E) → Above ent a xs → Above ent a (difference_run ent xs ys)
  unfolding difference_run
  difference_run-Above a [] ys h = tt
  difference_run-Above a (x ∷ xs) [] h = h
  difference_run-Above a (x ∷ xs) (y ∷ ys) (p, h) =
      if-split (Above ent a) (comp (get_key x) (get_key y))
        (λ _. (p, difference_run-Above a xs (y ∷ ys) h))
        λ _.
          if-split (Above ent a) (comp (get_key y) (get_key x))
            (λ _. difference_run-Above a (x ∷ xs) ys (p, h)) λ _. difference_run-Above a xs ys h

  difference_run-IsSorted :
      (xs ys : List E) → IsSorted ent xs → IsSorted ent (difference_run ent xs ys)
  unfolding difference_run
  difference_run-IsSorted [] ys s = tt
  difference_run-IsSorted (x ∷ xs) [] s = s
  difference_run-IsSorted (x ∷ xs) (y ∷ ys) (h, s) =
      if-split (IsSorted ent) (comp (get_key x) (get_key y))
        (λ _.
          (difference_run-Above (get_key x) xs (y ∷ ys) h, difference_run-IsSorted xs (y ∷ ys) s))
        λ _.
          if-split (IsSorted ent) (comp (get_key y) (get_key x))
            (λ _. difference_run-IsSorted (x ∷ xs) ys (h, s)) λ _. difference_run-IsSorted xs ys s

  kept :
      (q : K) (x : E) (o a b : Option E)
      → o ≡ without a b
      → (comp (get_key x) q ≡ false → b ≡ none)
      → lookup_at ent q x o o ≡ without (lookup_at ent q x a a) b
  kept q x o a b h nothing = ground arith

  past_right :
      (q : K) (y : E) (o a b : Option E)
      → o ≡ without a b
      → (comp (get_key y) q ≡ false → a ≡ none)
      → o ≡ without a (lookup_at ent q y b b)
  past_right q y o a b h nothing = ground (arith, without-none {E = E} b)

  dropped :
      (q : K) (x y : E) (o a b : Option E)
      → o ≡ without a b
      → get_key x ≡ get_key y
      → (comp (get_key x) q ≡ false → a ≡ none)
      → o ≡ without (lookup_at ent q x a a) (lookup_at ent q y b b)
  dropped q x y o a b h same nothing = rw (← same) (ground (arith, without-none {E = E} b))

  lookup-difference_run :
      (q : K) (xs ys : List E)
      → IsSorted ent xs
      → IsSorted ent ys
      → lookup ent q (difference_run ent xs ys) ≡ without (lookup ent q xs) (lookup ent q ys)
  unfolding difference_run
  lookup-difference_run q [] ys s s' = sym (without-none (lookup ent q ys))
  lookup-difference_run q (x ∷ xs) [] s s' = refl
  lookup-difference_run q (x ∷ xs) (y ∷ ys) (h, s) (h', s') =
      let kx = get_key x in
      let ky = get_key y in
      let Goal =
        λ (t : List E). lookup ent q t ≡ without (lookup ent q (x ∷ xs)) (lookup ent q (y ∷ ys)) in
      if-split Goal (comp kx ky)
        (λ lt.
          kept q x _ (lookup ent q xs) (lookup ent q (y ∷ ys))
            (lookup-difference_run q xs (y ∷ ys) s (h', s'))
            (lookup-past_first ent kx q (y ∷ ys) (lt, Above-trans ent kx ky ys lt h')))
        λ ge.
          if-split Goal (comp ky kx)
            (λ gt.
              past_right q y _ (lookup ent q (x ∷ xs)) (lookup ent q ys)
                (lookup-difference_run q (x ∷ xs) ys (h, s) s')
                (lookup-past_first ent ky q (x ∷ xs) (gt, Above-trans ent ky kx xs gt h)))
            λ le.
              dropped q x y _ (lookup ent q xs) (lookup ent q ys)
                (lookup-difference_run q xs ys s s') (comp_total kx ky ge le)
                (lookup-past_first ent kx q xs h)

module _ {ℓ κ μ} {E : Type ℓ} {K : Type κ} {V : Type μ} (ent : Entry E K V) (B : ℕ)
    (pos : 0 < B) where
  open ent use {get_key, comp}

  difference_bc-Refines :
      {m n : K → Option E} (b1 b2 : Node E)
      → Refines ent m b1
      → Refines ent n b2
      → Refines ent (zipped ent without m n) (difference_bc ent B b1 b2)
  unfolding difference_bc compressed_node_elms
  difference_bc-Refines b1 b2 h1 h2 =
      rw (iterate_seq-push b1 [], iterate_seq-push b2 [])
        (Refines-ext ent _
          (λ q.
            lookup-difference_run ent q (entries b1) (entries b2) h1.sorted h2.sorted
            ∙ rw (h1.reads q, h2.reads q) refl)
          (Refines-of_Holds ent _ (build_tree-Holds B pos _)
            (difference_run-IsSorted ent (entries b1) (entries b2) h1.sorted)))

  difference_at-Refines :
      (m n : K → Option E) (e : E) (found : Option E) (l r : Node E)
      → m (get_key e) ≡ some e
      → n (get_key e) ≡ found
      → Refines ent (zipped ent without (under ent (get_key e) m) (under ent (get_key e) n)) l
      → Refines ent (zipped ent without (over ent (get_key e) m) (over ent (get_key e) n)) r
      → Refines ent (zipped ent without m n) (difference_at ent B e found l r)
  difference_at-Refines m n e none l r hm hn hl hr =
      joined_sides ent without B (get_key e) l e r pos refl refl (ap₂ without hm hn) hl hr
  difference_at-Refines m n e (some x) l r hm hn hl hr =
      joined2_sides ent without B (get_key e) l r pos refl (ap₂ without hm hn) hl hr

  difference_loop-Refines :
      {m n : K → Option E} (fuel : ℕ) (b1 b2 : Node E)
      → length (entries b1) < fuel
      → Refines ent m b1
      → Refines ent n b2
      → Refines ent (zipped ent without m n) (difference_loop ent B fuel b1 b2)
  unfolding difference_loop
  difference_loop-Refines zero b1 b2 h h1 h2 = absurd (omega arith)
  difference_loop-Refines {m = m} {n = n} (suc fuel) b1 b2 h h1 h2 =
      let Goal = Refines ent (zipped ent without m n) in
      let nothing = λ (missing : (q : K) → m q ≡ none).
        Refines-ext ent empty
          (λ q. sym (ap (λ o. without o (n q)) (missing q) ∙ without-none (n q)))
          (empty-Refines ent) in
      if-split Goal (is_empty b1) (λ e1. nothing λ q. is_empty-none ent b1 q h1 e1)
        λ _.
          if-split Goal (is_empty b2)
            (λ e2. Refines-ext ent b1 (λ q. rw (is_empty-none ent b2 q h2 e2) refl) h1)
            λ _.
              if-both Goal (leb (size b1 + size b2) (base_case_size B))
                (difference_bc-Refines b1 b2 h1 h2)
                (expose-Refines ent B pos Goal _ _ b1 h1 nothing λ l1 e r1 p.
                  let k = get_key e in
                  let sp2 = split ent B b2 k in
                  let s = split-IsSplit ent B pos b2 k h2 in
                  difference_at-Refines m n e sp2.mid _ _ p.at_root (sym s.at_key)
                    (difference_loop-Refines {m = under ent k m} {n = under ent k n} fuel l1 sp2.l
                      (omega (arith, p.left_shorter)) p.on_left s.smaller)
                    (difference_loop-Refines {m = over ent k m} {n = over ent k n} fuel r1 sp2.r
                      (omega (arith, p.right_shorter)) p.on_right s.greater))

  -- For blocks of a positive size B and trees that refine m and n: `difference` returns a tree that
  -- refines m on the keys that n does not have, and has no others.
  pub difference-Refines :
      {m n : K → Option E} (b1 b2 : Node E)
      → Refines ent m b1
      → Refines ent n b2
      → Refines ent (zipped ent without m n) (difference ent B b1 b2)
  unfolding difference
  difference-Refines b1 b2 h1 h2 =
      difference_loop-Refines (suc (length (entries b1))) b1 b2 (omega arith) h1 h2
