-- ===== src/Map/Range/Within.antt =====
-- The parts of a map that left, right and range_2 yield.
use cpam.Base.{
  ℕ, ◌<◌, ◌≡◌, refl, ◌∙◌, Bool, not, ◌&&◌, Option, none, List, [], ◌∷◌, if◌then◌else◌, if-split,
  arith,
}
use cpam.Node.{Node, empty, regular, compressed, push}
use cpam.Node.Iterate.{entries, iterate_seq-entries}
use cpam.Seq.Contents.{build_tree-Holds}
use cpam.Seq.Bulk.Images.{passing, decode-passing}
use cpam.Entry.{Entry}
use cpam.Entry.Sorted.{
  Above, IsSorted, lookup, comp_asym, lookup-past_first, same_less, same_greater,
}
use cpam.Entry.Refines.{
  Refines, Refines-ext, Refines-of_Holds, AllBelow-under, AllAbove-over, under, over, same_answer,
  regular-IsParts, empty-Refines,
}
use cpam.Map.Split.Halves.{join-Refines}
use cpam.Map.Range.{range_root, comp_bc, left, right, range_at, range_2}

module _ {ℓ κ μ} {E : Type ℓ} {K : Type κ} {V : Type μ} (ent : Entry E K V) where
  open ent use {get_key, comp, le, comp_irrefl, comp_trans, comp_total}

  -- The answers to the keys that pass a test.
  abbrev pub restricted : (K → Bool) → (K → Option E) → K → Option E
  restricted f m q = if f q then m q else none

  -- The keys up to a bound, from one on, between two.
  abbrev pub up_to : K → K → Bool
  up_to k q = not (comp k q)

  abbrev pub from : K → K → Bool
  from k q = not (comp q k)

  abbrev pub between : K → K → K → Bool
  between low high q = from low q && up_to high q

  passing-Above : (k : K) (f : E → Bool) (xs : List E) → Above ent k xs → Above ent k (passing f xs)
  passing-Above k f [] h = tt
  passing-Above k f (x ∷ xs) (p, h) =
      if-split (Above ent k) (f x) (λ _. (p, passing-Above k f xs h)) λ _. passing-Above k f xs h

  passing-IsSorted : (f : E → Bool) (xs : List E) → IsSorted ent xs → IsSorted ent (passing f xs)
  passing-IsSorted f [] s = tt
  passing-IsSorted f (x ∷ xs) (h, s) =
      if-split (IsSorted ent) (f x)
        (λ _. (passing-Above (get_key x) f xs h, passing-IsSorted f xs s))
        λ _. passing-IsSorted f xs s

  lookup-passing :
      (q : K) (f : K → Bool) (xs : List E)
      → IsSorted ent xs
      → lookup ent q (passing (λ a. f (get_key a)) xs) ≡ restricted f (λ p. lookup ent p xs) q
  lookup-passing q f [] s = ground arith
  lookup-passing q f (x ∷ xs) (h, s) = ground (
    arith,
    lookup-passing q f xs s,
    comp_total q (get_key x),
    lookup-past_first ent (get_key x) q xs h,
  )

module _ {ℓ κ μ} {E : Type ℓ} {K : Type κ} {V : Type μ} (ent : Entry E K V) (B : ℕ)
    (pos : 0 < B) where
  open ent use {get_key, comp, le, comp_irrefl, comp_trans, comp_total}

  comp_bc-Refines :
      {m : K → Option E} (b : Node E) (f : K → Bool)
      → Refines ent m b
      → Refines ent (restricted ent f m) (comp_bc ent B b f)
  unfolding comp_bc
  comp_bc-Refines b f h =
      let test = λ (a : E). f (get_key a) in
      rw
        (
          iterate_seq-entries (λ stack a. if test a then push stack a else stack) b [],
          decode-passing test (entries b) [],
        )
        (Refines-ext ent _ (λ q. lookup-passing ent q f (entries b) h.sorted ∙ rw (h.reads q) refl)
          (Refines-of_Holds ent _ (build_tree-Holds B pos (passing test (entries b)))
            (passing-IsSorted ent test (entries b) h.sorted)))

  empty_part :
      {m : K → Option E} (f : K → Bool)
      → Refines ent m empty
      → Refines ent (restricted ent f m) empty
  empty_part f h = Refines-ext ent empty (λ q. ground (arith, h.reads q)) (empty-Refines ent)

module _ {ℓ κ μ} {E : Type ℓ} {K : Type κ} {V : Type μ} (ent : Entry E K V) (B : ℕ) (pos : 0 < B)
    (le_comp : (a b : K) → ent.le a b ≡ not (ent.comp b a)) where
  open ent use {get_key, comp, le, comp_irrefl, comp_trans, comp_total}

  -- For blocks of a positive size B, keys whose operator <= says what `comp` says (a <= b just when
  -- b is not less than a) and a tree that refines m: `left` returns a tree that refines m
  -- on the keys up to k, k included, and has no others.
  pub left-Refines :
      {m : K → Option E} (b : Node E) (k : K)
      → Refines ent m b
      → Refines ent (restricted ent (up_to ent k) m) (left ent B b k)
  unfolding left
  left-Refines empty k h = empty_part ent B pos (up_to ent k) h
  left-Refines (compressed es) k h =
      Refines-ext ent _ (λ q. rw (le_comp q k) refl)
        (comp_bc-Refines ent B pos (compressed es) (λ a. le a k) h)
  left-Refines {m = m} (regular s lc e rc) k h =
      let p = regular-IsParts ent s lc e rc h in
      let kb = get_key e in
      if-split (Refines ent (restricted ent (up_to ent k) m)) (comp k kb)
        (λ gt.
          Refines-ext ent _ (λ q. ground (arith, comp_trans k kb q, same_greater ent kb q k))
            (left-Refines {m = under ent kb m} lc k p.on_left))
        λ le'.
          Refines-ext ent _
            (λ q. ground (
              arith,
              p.at_root,
              same_answer ent m kb q,
              same_greater ent kb q k,
              comp_trans k q kb,
              comp_asym ent kb q,
            ))
            (join-Refines ent B pos lc e _ p.on_left
              (left-Refines {m = over ent kb m} rc k p.on_right) (AllBelow-under ent kb m)
              (λ q x found. ground arith))

  -- For blocks of a positive size B, keys whose operator <= says what `comp` says (a <= b just when
  -- b is not less than a) and a tree that refines m: `right` returns a tree that refines
  -- m on the keys from k on, k included, and has no others.
  pub right-Refines :
      {m : K → Option E} (b : Node E) (k : K)
      → Refines ent m b
      → Refines ent (restricted ent (from ent k) m) (right ent B b k)
  unfolding right
  right-Refines empty k h = empty_part ent B pos (from ent k) h
  right-Refines (compressed es) k h =
      Refines-ext ent _ (λ q. rw (le_comp k q) refl)
        (comp_bc-Refines ent B pos (compressed es) (λ a. le k a) h)
  right-Refines {m = m} (regular s lc e rc) k h =
      let p = regular-IsParts ent s lc e rc h in
      let kb = get_key e in
      if-split (Refines ent (restricted ent (from ent k) m)) (comp kb k)
        (λ lt.
          Refines-ext ent _ (λ q. ground (arith, comp_trans q kb k, same_less ent kb q k))
            (right-Refines {m = over ent kb m} rc k p.on_right))
        λ ge.
          Refines-ext ent _
            (λ q. ground (
              arith,
              p.at_root,
              same_answer ent m kb q,
              same_less ent kb q k,
              comp_trans kb q k,
              comp_asym ent kb q,
            ))
            (join-Refines ent B pos _ e rc (right-Refines {m = under ent kb m} lc k p.on_left)
              p.on_right (λ q x found. ground arith) (AllAbove-over ent kb m))

  -- For blocks of a positive size B, keys whose operator <= says what `comp` says (a <= b just when
  -- b is not less than a) and a tree that refines m: `range_2` returns a tree that refines m on the
  -- keys from low to high, both included, and has no others.
  pub range_2-Refines :
      {m : K → Option E} (b : Node E) (low high : K)
      → Refines ent m b
      → Refines ent (restricted ent (between ent low high) m) (range_2 ent B b low high)
  unfolding range_2 range_at range_root
  range_2-Refines empty low high h = empty_part ent B pos (between ent low high) h
  range_2-Refines (compressed es) low high h =
      Refines-ext ent _ (λ q. rw (le_comp low q, le_comp q high) refl)
        (comp_bc-Refines ent B pos (compressed es) (λ k. le low k && le k high) h)
  range_2-Refines {m = m} (regular s lc e rc) low high h =
      let p = regular-IsParts ent s lc e rc h in
      let kb = get_key e in
      let Goal = λ (t : Node E).
        Refines ent (restricted ent (between ent low high) m) (range_at ent B t low high) in
      if-split Goal (comp high kb)
        (λ gt.
          Refines-ext ent _ (λ q. ground (arith, comp_trans high kb q, same_greater ent kb q high))
            (range_2-Refines {m = under ent kb m} lc low high p.on_left))
        λ le'.
          if-split Goal (comp kb low)
            (λ lt.
              Refines-ext ent _ (λ q. ground (arith, comp_trans q kb low, same_less ent kb q low))
                (range_2-Refines {m = over ent kb m} rc low high p.on_right))
            λ ge.
              Refines-ext ent _
                (λ q. ground (
                  arith,
                  p.at_root,
                  same_answer ent m kb q,
                  same_less ent kb q low,
                  same_greater ent kb q high,
                  comp_trans kb q low,
                  comp_trans high q kb,
                  comp_asym ent kb q,
                ))
                (join-Refines ent B pos _ e _ (right-Refines {m = under ent kb m} lc low p.on_left)
                  (left-Refines {m = over ent kb m} rc high p.on_right) (λ q x found. ground arith)
                  (λ q x found. ground arith))
