-- ===== src/Map/MultiInsert/Arrays.antt =====
-- A sorted array cut at a key: the entries before the split point, at it and behind it.
use cpam.Base.{ℕ, zero, suc, ◌≡◌, refl, not, List, [], ◌∷◌, take, drop, if-split, if-both, arith}
use cpam.Search.{linear_search}
use cpam.Search.Agree.{IsPartitioned}
use cpam.Entry.{Entry}
use cpam.Entry.Sorted.{IsSorted, Above, lookup, lookup-past_first, comp_asym, All-imp, same_greater}
use cpam.Entry.Refines.{under, over}
use cpam.Map.MultiInsert.{duplicate, past_duplicate}

module _ {ℓ κ μ} {E : Type ℓ} {K : Type κ} {V : Type μ} (ent : Entry E K V) where
  open ent use {get_key, comp, comp_irrefl, comp_trans, comp_total}

  -- A sorted array is partitioned by the test that the search makes.
  pub partitioned :
      (k : K) (xs : List E) → IsSorted ent xs → IsPartitioned (λ x. comp (get_key x) k) xs
  partitioned k [] s = tt
  partitioned k (x ∷ xs) (above, s) = (
    λ not_less. All-imp xs (λ y p. ground (arith, comp_trans (get_key x) (get_key y) k)) above,
    partitioned k xs s,
  )

  abbrev pub split_point : K → List E → ℕ
  split_point k xs = linear_search (λ x. comp (get_key x) k) xs

  take-Above : (a : K) (n : ℕ) (xs : List E) → Above ent a xs → Above ent a (take n xs)
  take-Above a zero xs h = tt
  take-Above a (suc n) [] h = tt
  take-Above a (suc n) (x ∷ xs) (p, h) = (p, take-Above a n xs h)

  pub take-IsSorted : (n : ℕ) (xs : List E) → IsSorted ent xs → IsSorted ent (take n xs)
  take-IsSorted zero xs s = tt
  take-IsSorted (suc n) [] s = tt
  take-IsSorted (suc n) (x ∷ xs) (above, s) =
      (take-Above (get_key x) n xs above, take-IsSorted n xs s)

  pub drop-IsSorted : (n : ℕ) (xs : List E) → IsSorted ent xs → IsSorted ent (drop n xs)
  drop-IsSorted zero xs s = s
  drop-IsSorted (suc n) [] s = tt
  drop-IsSorted (suc n) (x ∷ xs) (above, s) = drop-IsSorted n xs s

  pub past_duplicate-IsSorted :
      (k : K) (xs : List E) → IsSorted ent xs → IsSorted ent (past_duplicate ent k xs)
  past_duplicate-IsSorted k [] s = tt
  past_duplicate-IsSorted k (x ∷ xs) (above, s) =
      if-both (IsSorted ent) (not (comp k (get_key x))) s (above, s)

  -- The part of the array before the split point, behind it, and at it.
  pub lookup-before :
      (q k : K) (xs : List E)
      → IsSorted ent xs
      → lookup ent q (take (split_point k xs) xs) ≡ under ent k (λ p. lookup ent p xs) q
  unfolding linear_search
  lookup-before q k [] s = ground arith
  lookup-before q k (x ∷ xs) (above, s) =
      if-split (λ n. lookup ent q (take n (x ∷ xs)) ≡ under ent k (λ p. lookup ent p (x ∷ xs)) q)
        (not (comp (get_key x) k))
        (λ stops. ground (
          arith,
          comp_trans (get_key x) q k,
          comp_trans q k (get_key x),
          comp_total q (get_key x),
          comp_total k (get_key x),
          lookup-past_first ent (get_key x) q xs above,
        ))
        (λ passes. ground (arith, lookup-before q k xs s, comp_total q (get_key x)))

  pub lookup-behind :
      (q k : K) (xs : List E)
      → IsSorted ent xs
      → lookup ent q (past_duplicate ent k (drop (split_point k xs) xs))
        ≡ over ent k (λ p. lookup ent p xs) q
  unfolding linear_search
  lookup-behind q k [] s = ground arith
  lookup-behind q k (x ∷ xs) (above, s) =
      if-split
        (λ n.
          lookup ent q (past_duplicate ent k (drop n (x ∷ xs)))
          ≡ over ent k (λ p. lookup ent p (x ∷ xs)) q)
        (not (comp (get_key x) k))
        (λ stops. ground (
          arith,
          comp_trans k q (get_key x),
          comp_trans k (get_key x) q,
          comp_total q (get_key x),
          comp_total k (get_key x),
          comp_irrefl (get_key x),
          comp_asym ent k q,
          comp_asym ent k (get_key x),
          lookup-past_first ent (get_key x) q xs above,
          same_greater ent (get_key x) k q,
        ))
        (λ passes. ground (
          arith,
          lookup-behind q k xs s,
          comp_trans k q (get_key x),
          comp_trans (get_key x) k q,
          comp_asym ent (get_key x) k,
          comp_asym ent (get_key x) q,
          comp_total q (get_key x),
        ))

  pub lookup-duplicate :
      (k : K) (xs : List E)
      → IsSorted ent xs
      → lookup ent k xs ≡ duplicate ent k (drop (split_point k xs) xs)
  unfolding linear_search
  lookup-duplicate k [] s = refl
  lookup-duplicate k (x ∷ xs) (above, s) =
      if-split (λ n. lookup ent k (x ∷ xs) ≡ duplicate ent k (drop n (x ∷ xs)))
        (not (comp (get_key x) k))
        (λ stops.
          ground (arith, lookup-past_first ent (get_key x) k xs above, comp_asym ent k (get_key x)))
        (λ passes. ground (arith, lookup-duplicate k xs s, comp_asym ent (get_key x) k))
