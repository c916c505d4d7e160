-- ===== src/Aug/Sums/Ranges.antt =====
-- The sum over the keys between two keys, neither of which a block holds.
use cpam.Base.{
  ◌≡◌, refl, sym, ap, ap₂, ◌∙◌, Bool, true, false, not, ◌&&◌, List, [], ◌∷◌, ◌++◌, if◌then◌else◌,
  All, arith, Bool-cases, inl, inr,
}
use cpam.Aug.{AugNode, empty, regular, compressed, Aug, iterate_seq}
use cpam.Aug.Cached.{IsMonoid, IsCached, entries, sum_where, sum_where-append}
use cpam.Aug.Sums.{add_entry, aug_sum_left, aug_sum_right, range_root, sum_at_root, aug_sum_range}
use cpam.Aug.Sums.Keys.{
  sum_where-cong, sum_where-none, less, at_least, decode-sum_where, aug_sum_right-eq_sum_where,
}
use cpam.Aug.Sums.Left.{at_nodes, aug_sum_left-eq_sum_where}
use cpam.Entry.{Entry}
use cpam.Entry.Sorted.{All-imp, IsSorted, IsJoin, IsSorted-split, comp_asym}
use cpam.Map.Search.{matches}

module _ {ℓ κ μ ν} {E : Type ℓ} {K : Type κ} {V : Type μ} {M : Type ν} (ent : Entry E K V) where
  abbrev pub InNoBlock : K → AugNode E M → Type 0
  InNoBlock key empty = Unit
  InNoBlock key (regular s l e av r) = InNoBlock key l × InNoBlock key r
  InNoBlock key (compressed av es) = All (λ e. matches ent key e ≡ false) es

module _ {ℓ κ μ} {E : Type ℓ} {K : Type κ} {V : Type μ} (ent : Entry E K V) where
  open ent use {get_key, comp}

  -- Both ends included.
  abbrev pub within : K → K → E → Bool
  within key_left key_right e = not (comp (get_key e) key_left) && not (comp key_right (get_key e))

module _ {ℓ κ μ ν} {E : Type ℓ} {K : Type κ} {V : Type μ} {M : Type ν} (ent : Entry E K V)
    (aug : Aug E M) (monoid : IsMonoid aug)
    (comm : (a b : M) → aug.combine a b ≡ aug.combine b a) where
  open ent use {get_key, comp, comp_trans, comp_total, comp_irrefl}
  open aug use {get_empty, from_entry, combine}
  open monoid use {combine_assoc, combine_left, combine_right}

  abbrev pub up_to : K → E → Bool
  up_to key e = not (comp key (get_key e))

  swap_middle :
      (a b c d : M) → combine (combine a b) (combine c d) ≡ combine (combine a c) (combine b d)
  swap_middle a b c d =
      combine_assoc a b (combine c d)
      ∙ ap (combine a)
          (sym (combine_assoc b c d) ∙ ap (λ x. combine x d) (comm b c) ∙ combine_assoc c b d)
      ∙ sym (combine_assoc a c (combine b d))

  -- A sum over the entries that pass one of two tests.
  sum_where-or :
      (p q r : E → Bool) (es : List E)
      → ((e : E)
          → combine (sum_where aug p (e ∷ [])) (sum_where aug q (e ∷ []))
            ≡ sum_where aug r (e ∷ []))
      → combine (sum_where aug p es) (sum_where aug q es) ≡ sum_where aug r es
  sum_where-or p q r [] h = combine_left get_empty
  sum_where-or p q r (e ∷ es) h =
      ap₂ combine (sum_where-append aug monoid p (e ∷ []) es)
        (sum_where-append aug monoid q (e ∷ []) es)
      ∙ swap_middle _ _ _ _
      ∙ ap₂ combine (h e) (sum_where-or p q r es h)
      ∙ sym (sum_where-append aug monoid r (e ∷ []) es)

  root_sum :
      (b : Bool) (x rest : M)
      → combine (if b then x else get_empty) rest ≡ (if b then combine x rest else rest)
  root_sum true x rest = refl
  root_sum false x rest = combine_left rest

  at_nodes-eq_sum_where :
      (key : K) (t : AugNode E M)
      → InNoBlock ent key t
      → at_nodes ent aug key t ≡ sum_where aug (matches ent key) (entries t)
  at_nodes-eq_sum_where key empty h = refl
  at_nodes-eq_sum_where key (compressed av es) h = sym (sum_where-none aug (matches ent key) es h)
  at_nodes-eq_sum_where key (regular s l e av r) (hl, hr) =
      ap₂ (λ x y. combine x (combine (if matches ent key e then from_entry e else get_empty) y))
        (at_nodes-eq_sum_where key l hl) (at_nodes-eq_sum_where key r hr)
      ∙ ap (combine _) (root_sum (matches ent key e) (from_entry e) _)
      ∙ sym (sum_where-append aug monoid (matches ent key) (entries l) (e ∷ entries r))

  less_or_at :
      (key : K) (e : E)
      → combine (sum_where aug (less ent key) (e ∷ [])) (sum_where aug (matches ent key) (e ∷ []))
        ≡ sum_where aug (up_to key) (e ∷ [])
  less_or_at key e = elim (Bool-cases (comp (get_key e) key)) [
    | inl lt ↦ rw (lt, comp_asym ent (get_key e) key lt) (combine_right _)
    | inr ge ↦ elim (Bool-cases (comp key (get_key e))) [
      | inl gt ↦ rw (ge, gt) (combine_left _)
      | inr same ↦ rw (ge, same) (combine_left _)
    ]
  ]

  -- The sum up to a key that no block holds, the key included.
  pub aug_sum_left-up_to :
      (t : AugNode E M) (key : K) (a : M)
      → IsCached aug t
      → IsSorted ent (entries t)
      → InNoBlock ent key t
      → aug_sum_left ent aug t key a ≡ combine a (sum_where aug (up_to key) (entries t))
  aug_sum_left-up_to t key a h s free =
      aug_sum_left-eq_sum_where ent aug monoid comm t key a h s
      ∙ ap (combine a) (
          ap (combine _) (at_nodes-eq_sum_where key t free)
          ∙ sum_where-or (less ent key) (matches ent key) (up_to key) (entries t) (less_or_at key))

  strictly_within :
      (kl kr : K) (es : List E)
      → All (λ e. matches ent kl e ≡ false) es
      → All (λ e. matches ent kr e ≡ false) es
      → All (λ e. (comp kl (get_key e) && comp (get_key e) kr) ≡ within ent kl kr e) es
  strictly_within kl kr [] fl fr = tt
  strictly_within kl kr (e ∷ es) (hl, fl) (hr, fr) = (
    ground (
      arith,
      comp_trans kl (get_key e) kl,
      comp_trans kr (get_key e) kr,
      comp_irrefl kl,
      comp_irrefl kr,
    ),
    strictly_within kl kr es fl fr,
  )

  -- The keys in the range of a list around an entry e.
  module _ (kl kr : K) (xs : List E) (e : E) (ys : List E) (j : IsJoin ent xs e ys) where
    range_parts :
        sum_where aug (within ent kl kr) (xs ++ e ∷ ys)
        ≡ combine (sum_where aug (within ent kl kr) xs) (sum_where aug (within ent kl kr) (e ∷ ys))
    range_parts = sum_where-append aug monoid (within ent kl kr) xs (e ∷ ys)

    range-left :
        comp kr (get_key e) ≡ true
        → sum_where aug (within ent kl kr) (xs ++ e ∷ ys) ≡ sum_where aug (within ent kl kr) xs
    range-left gt =
        let none : sum_where aug (within ent kl kr) (e ∷ ys) ≡ get_empty =
          sum_where-none aug (within ent kl kr) (e ∷ ys) (
            ground arith,
            All-imp ys (λ x q. ground (arith, comp_trans kr (get_key e) (get_key x))) j.right_above,
          ) in
        range_parts ∙ ap (combine _) none ∙ combine_right _

    range-right :
        comp (get_key e) kl ≡ true
        → sum_where aug (within ent kl kr) (xs ++ e ∷ ys) ≡ sum_where aug (within ent kl kr) ys
    range-right lt =
        let none : sum_where aug (within ent kl kr) xs ≡ get_empty =
          sum_where-none aug (within ent kl kr) xs (
            All-imp xs (λ x q. ground (arith, comp_trans (get_key x) (get_key e) kl))
              j.left_below) in
        range_parts ∙ rw (none, lt) (combine_left _)

    range-root :
        comp kr (get_key e) ≡ false
        → comp (get_key e) kl ≡ false
        → sum_where aug (within ent kl kr) (xs ++ e ∷ ys)
          ≡ combine
              (sum_where aug (at_least ent kl) xs)
              (combine (from_entry e) (sum_where aug (up_to kr) ys))
    range-root le ge =
        let lower : sum_where aug (at_least ent kl) xs ≡ sum_where aug (within ent kl kr) xs =
          sum_where-cong aug (at_least ent kl) (within ent kl kr) xs (
            All-imp xs (λ x q. ground (arith, comp_trans kr (get_key x) (get_key e)))
              j.left_below) in
        let upper : sum_where aug (up_to kr) ys ≡ sum_where aug (within ent kl kr) ys =
          sum_where-cong aug (up_to kr) (within ent kl kr) ys (
            All-imp ys (λ x q. ground (arith, comp_trans (get_key e) (get_key x) kl))
              j.right_above) in
        range_parts ∙ rw (ge, le, lower, upper) refl

  -- In a commutative monoid, for a tree with right sums and its entries in the order of their keys,
  -- where no block has an entry of key_left or key_right: `aug_sum_range` adds to `a` the sum of
  -- the entries with keys from key_left to key_right, both included.
  pub aug_sum_range-eq_sum_where :
      (t : AugNode E M) (key_left key_right : K) (a : M)
      → IsCached aug t
      → IsSorted ent (entries t)
      → InNoBlock ent key_left t
      → InNoBlock ent key_right t
      → aug_sum_range ent aug t key_left key_right a
        ≡ combine a (sum_where aug (within ent key_left key_right) (entries t))
  unfolding aug_sum_range range_root sum_at_root iterate_seq
  aug_sum_range-eq_sum_where empty kl kr a h s fl fr = sym (combine_right a)
  aug_sum_range-eq_sum_where (compressed av es) kl kr a h s fl fr =
      decode-sum_where ent aug monoid comm (λ et. comp kl (get_key et) && comp (get_key et) kr) es a
      ∙ ap (combine a) (sum_where-cong aug _ (within ent kl kr) es (strictly_within kl kr es fl fr))
  aug_sum_range-eq_sum_where (regular n l e av r) kl kr a (hl, hr, h) s (fll, flr) (frl, frr) =
      let j = IsSorted-split ent (entries l) e (entries r) s in
      elim (Bool-cases (comp kr (get_key e))) [
        | inl gt ↦ rw gt (
            aug_sum_range-eq_sum_where l kl kr a hl j.left_sorted fll frl
            ∙ ap (combine a) (sym (range-left kl kr (entries l) e (entries r) j gt)))
        | inr le ↦ elim (Bool-cases (comp (get_key e) kl)) [
          | inl lt ↦
              rw (le, lt)
                (aug_sum_range-eq_sum_where r kl kr a hr j.right_sorted flr frr
                  ∙ ap (combine a) (sym (range-right kl kr (entries l) e (entries r) j lt)))
          | inr ge ↦
              rw (le, ge)
                (aug_sum_left-up_to r kr (add_entry aug (aug_sum_right ent aug l kl a) e) hr
                    j.right_sorted frr
                  ∙ rw (aug_sum_right-eq_sum_where ent aug monoid comm l kl a hl j.left_sorted)
                      (combine_assoc _ _ _ ∙ combine_assoc _ _ _)
                  ∙ ap (combine a) (sym (range-root kl kr (entries l) e (entries r) j le ge)))
        ]
      ]
