-- ===== src/Map/Intersect/Merged.antt =====
-- What the loop of intersect_bc makes of two arrays in the order of their keys.
use cpam.Base.{◌≡◌, refl, sym, false, Option, none, some, List, [], ◌∷◌, if-split, arith}
use cpam.Entry.{Entry}
use cpam.Entry.Sorted.{IsSorted, Above, lookup, lookup_at, lookup-past_first, Above-trans}
use cpam.Map.Union.Merged.{merged_entry}
use cpam.Map.Intersect.{intersect_run}

module _ {ℓ κ μ} {E : Type ℓ} {K : Type κ} {V : Type μ} (ent : Entry E K V) where
  open ent use {
    get_key, get_val, set_val, comp, comp_irrefl, comp_trans, comp_total, get_key-set_val,
  }

  -- The answers of two maps to a key that both have.
  abbrev pub common : (E → E → E) → Option E → Option E → Option E
  common f none o = none
  common f (some a) none = none
  common f (some a) (some b) = some (f a b)

  pub common-none : (f : E → E → E) (o : Option E) → common f o none ≡ none
  common-none f none = refl
  common-none f (some a) = refl

  intersect_run-Above :
      (a : K) (op : V → V → V) (xs ys : List E)
      → Above ent a xs
      → Above ent a (intersect_run ent op xs ys)
  unfolding intersect_run
  intersect_run-Above a op [] ys h = tt
  intersect_run-Above a op (x ∷ xs) [] h = tt
  intersect_run-Above a op (x ∷ xs) (y ∷ ys) (p, h) =
      if-split (Above ent a) (comp (get_key x) (get_key y))
        (λ _. intersect_run-Above a op xs (y ∷ ys) h)
        λ _.
          if-split (Above ent a) (comp (get_key y) (get_key x))
            (λ _. intersect_run-Above a op (x ∷ xs) ys (p, h))
            λ _. (
              rw (get_key-set_val x (op (get_val y) (get_val x))) p,
              intersect_run-Above a op xs ys h,
            )

  pub intersect_run-IsSorted :
      (op : V → V → V) (xs ys : List E)
      → IsSorted ent xs
      → IsSorted ent (intersect_run ent op xs ys)
  unfolding intersect_run
  intersect_run-IsSorted op [] ys s = tt
  intersect_run-IsSorted op (x ∷ xs) [] s = tt
  intersect_run-IsSorted op (x ∷ xs) (y ∷ ys) (h, s) =
      if-split (IsSorted ent) (comp (get_key x) (get_key y))
        (λ _. intersect_run-IsSorted op xs (y ∷ ys) s)
        λ _.
          if-split (IsSorted ent) (comp (get_key y) (get_key x))
            (λ _. intersect_run-IsSorted op (x ∷ xs) ys (h, s))
            λ _. (
              rw (get_key-set_val x (op (get_val y) (get_val x)))
                  (intersect_run-Above (get_key x) op xs ys h),
              intersect_run-IsSorted op xs ys s,
            )

  past_left :
      (f : E → E → E) (q : K) (x : E) (o a b : Option E)
      → o ≡ common f a b
      → (comp (get_key x) q ≡ false → b ≡ none)
      → o ≡ common f (lookup_at ent q x a a) b
  past_left f q x o a b h nothing = ground arith

  past_right :
      (f : E → E → E) (q : K) (y : E) (o a b : Option E)
      → o ≡ common f a b
      → (comp (get_key y) q ≡ false → a ≡ none)
      → o ≡ common f a (lookup_at ent q y b b)
  past_right f q y o a b h nothing = ground (arith, common-none f a)

  at_both :
      (f : E → E → E) (q : K) (x y : E) (o a b : Option E)
      → o ≡ common f a b
      → get_key x ≡ get_key y
      → get_key (f x y) ≡ get_key x
      → lookup_at ent q (f x y) o o ≡ common f (lookup_at ent q x a a) (lookup_at ent q y b b)
  at_both f q x y o a b h same kept = rw (kept, same) (ground arith)

  pub lookup-intersect_run :
      (q : K) (op : V → V → V) (xs ys : List E)
      → IsSorted ent xs
      → IsSorted ent ys
      → lookup ent q (intersect_run ent op xs ys)
        ≡ common (merged_entry ent op) (lookup ent q xs) (lookup ent q ys)
  unfolding intersect_run
  lookup-intersect_run q op [] ys s s' = refl
  lookup-intersect_run q op (x ∷ xs) [] s s' =
      sym (common-none (merged_entry ent op) (lookup ent q (x ∷ xs)))
  lookup-intersect_run q op (x ∷ xs) (y ∷ ys) (h, s) (h', s') =
      let f = merged_entry ent op in
      let kx = get_key x in
      let ky = get_key y in
      let Goal =
        λ (t : List E). lookup ent q t ≡ common f (lookup ent q (x ∷ xs)) (lookup ent q (y ∷ ys)) in
      if-split Goal (comp kx ky)
        (λ lt.
          past_left f q x _ (lookup ent q xs) (lookup ent q (y ∷ ys))
            (lookup-intersect_run q op xs (y ∷ ys) s (h', s'))
            (lookup-past_first ent kx q (y ∷ ys) (lt, Above-trans ent kx ky ys lt h')))
        λ ge.
          if-split Goal (comp ky kx)
            (λ gt.
              past_right f q y _ (lookup ent q (x ∷ xs)) (lookup ent q ys)
                (lookup-intersect_run q op (x ∷ xs) ys (h, s) s')
                (lookup-past_first ent ky q (x ∷ xs) (gt, Above-trans ent ky kx xs gt h)))
            λ le.
              at_both f q x y _ (lookup ent q xs) (lookup ent q ys)
                (lookup-intersect_run q op xs ys s s') (comp_total kx ky ge le)
                (get_key-set_val x (op (get_val y) (get_val x)))
