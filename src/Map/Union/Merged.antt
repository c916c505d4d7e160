-- ===== src/Map/Union/Merged.antt =====
-- The merge loops of union_bc.
use cpam.Base.{◌≡◌, refl, false, Option, none, some, List, [], ◌∷◌, if-split, arith}
use cpam.Entry.{Entry}
use cpam.Entry.Sorted.{IsSorted, Above, lookup, lookup_at, lookup-past_first, Above-trans}
use cpam.Map.Union.{union_run}

module _ {ℓ κ μ} {E : Type ℓ} {K : Type κ} {V : Type μ} (ent : Entry E K V) where
  open ent use {
    get_key, get_val, set_val, comp, comp_irrefl, comp_trans, comp_total, get_key-set_val,
  }

  -- The answers of two maps to a key, made one.
  abbrev pub combined : (E → E → E) → Option E → Option E → Option E
  combined f none o = o
  combined f (some a) none = some a
  combined f (some a) (some b) = some (f a b)

  pub combined-none : (f : E → E → E) (o : Option E) → o ≡ combined f o none
  combined-none f none = refl
  combined-none f (some a) = refl

  -- What a merge puts for an entry of the first and one of the second list.
  abbrev pub merged_entry : (V → V → V) → E → E → E
  merged_entry op a b = set_val a (op (get_val b) (get_val a))

  union_run-Above :
      (a : K) (op : V → V → V) (xs ys : List E)
      → Above ent a xs
      → Above ent a ys
      → Above ent a (union_run ent op xs ys)
  unfolding union_run
  union_run-Above a op [] ys h h' = h'
  union_run-Above a op (x ∷ xs) [] h h' = h
  union_run-Above a op (x ∷ xs) (y ∷ ys) (p, h) (p', h') =
      if-split (Above ent a) (comp (get_key x) (get_key y))
        (λ _. (p, union_run-Above a op xs (y ∷ ys) h (p', h')))
        λ _.
          if-split (Above ent a) (comp (get_key y) (get_key x))
            (λ _. (p', union_run-Above a op (x ∷ xs) ys (p, h) h'))
            λ _. (
              rw (get_key-set_val x (op (get_val y) (get_val x))) p,
              union_run-Above a op xs ys h h',
            )

  pub union_run-IsSorted :
      (op : V → V → V) (xs ys : List E)
      → IsSorted ent xs
      → IsSorted ent ys
      → IsSorted ent (union_run ent op xs ys)
  unfolding union_run
  union_run-IsSorted op [] ys s s' = s'
  union_run-IsSorted op (x ∷ xs) [] s s' = s
  union_run-IsSorted op (x ∷ xs) (y ∷ ys) (h, s) (h', s') =
      let kx = get_key x in
      let ky = get_key y in
      if-split (IsSorted ent) (comp kx ky)
        (λ lt. (
          union_run-Above kx op xs (y ∷ ys) h (lt, Above-trans ent kx ky ys lt h'),
          union_run-IsSorted op xs (y ∷ ys) s (h', s'),
        ))
        λ ge.
          if-split (IsSorted ent) (comp ky kx)
            (λ gt. (
              union_run-Above ky op (x ∷ xs) ys (gt, Above-trans ent ky kx xs gt h) h',
              union_run-IsSorted op (x ∷ xs) ys (h, s) s',
            ))
            λ le.
              let same : kx ≡ ky = comp_total kx ky ge le in
              (
                rw (get_key-set_val x (op (get_val y) (get_val x)))
                    (union_run-Above kx op xs ys h (rw same h')),
                union_run-IsSorted op xs ys s s',
              )

  -- The answer of a list to a key, when an entry of the first, of the second, of both lists is put in
  -- front of a list that answers as the two tails do.
  at_left :
      (f : E → E → E) (q : K) (x : E) (o a b : Option E)
      → o ≡ combined f a b
      → (comp (get_key x) q ≡ false → b ≡ none)
      → lookup_at ent q x o o ≡ combined f (lookup_at ent q x a a) b
  at_left f q x o a b h nothing = ground arith

  at_right :
      (f : E → E → E) (q : K) (y : E) (o a b : Option E)
      → o ≡ combined f a b
      → (comp (get_key y) q ≡ false → a ≡ none)
      → lookup_at ent q y o o ≡ combined f a (lookup_at ent q y b b)
  at_right f q y o a b h nothing = ground arith

  at_both :
      (f : E → E → E) (q : K) (x y : E) (o a b : Option E)
      → o ≡ combined f a b
      → get_key x ≡ get_key y
      → get_key (f x y) ≡ get_key x
      → lookup_at ent q (f x y) o o ≡ combined f (lookup_at ent q x a a) (lookup_at ent q y b b)
  at_both f q x y o a b h same kept = rw (kept, same) (ground arith)

  pub lookup-union_run :
      (q : K) (op : V → V → V) (xs ys : List E)
      → IsSorted ent xs
      → IsSorted ent ys
      → lookup ent q (union_run ent op xs ys)
        ≡ combined (merged_entry op) (lookup ent q xs) (lookup ent q ys)
  unfolding union_run
  lookup-union_run q op [] ys s s' = refl
  lookup-union_run q op (x ∷ xs) [] s s' = combined-none (merged_entry op) (lookup ent q (x ∷ xs))
  lookup-union_run q op (x ∷ xs) (y ∷ ys) (h, s) (h', s') =
      let f = merged_entry op in
      let kx = get_key x in
      let ky = get_key y in
      let Goal = λ (t : List E).
        lookup ent q t ≡ combined f (lookup ent q (x ∷ xs)) (lookup ent q (y ∷ ys)) in
      if-split Goal (comp kx ky)
        (λ lt.
          at_left f q x _ (lookup ent q xs) (lookup ent q (y ∷ ys))
            (lookup-union_run q op xs (y ∷ ys) s (h', s'))
            (lookup-past_first ent kx q (y ∷ ys) (lt, Above-trans ent kx ky ys lt h')))
        λ ge.
          if-split Goal (comp ky kx)
            (λ gt.
              at_right f q y _ (lookup ent q (x ∷ xs)) (lookup ent q ys)
                (lookup-union_run q op (x ∷ xs) ys (h, s) s')
                (lookup-past_first ent ky q (x ∷ xs) (gt, Above-trans ent ky kx xs gt h)))
            λ le.
              at_both f q x y _ (lookup ent q xs) (lookup ent q ys)
                (lookup-union_run q op xs ys s s') (comp_total kx ky ge le)
                (get_key-set_val x (op (get_val y) (get_val x)))
