-- ===== src/Aug/Sums/Left.antt =====
-- The sum over the keys up to a key, whose own entry is left out where it stands in a block.
use cpam.Base.{
  ◌≡◌, refl, sym, ap, ap₂, ◌∙◌, true, false, List, [], ◌∷◌, ◌++◌, if◌then◌else◌, All, arith,
  Bool-cases, inl, inr,
}
use cpam.Node.{decode_cond}
use cpam.Aug.{AugNode, empty, regular, compressed, Aug, iterate_cond}
use cpam.Aug.Cached.{IsMonoid, IsCached, entries, sum, sum_where, sum_where-append}
use cpam.Aug.Sums.{add_entry, add_child, aug_sum_left}
use cpam.Aug.Sums.Keys.{sum_where-cong, sum_where-none, add_child-eq_sum, less, root_before}
use cpam.Entry.{Entry}
use cpam.Entry.Sorted.{All-left, All-right, All-imp, IsSorted, IsJoin, IsSorted-split, comp_asym}
use cpam.Map.Search.{matches}

module _ {ℓ κ μ ν} {E : Type ℓ} {K : Type κ} {V : Type μ} {M : Type ν} (ent : Entry E K V)
    (aug : Aug E M) where
  -- The sum of the entries of a key that stand at regular nodes: one at most.
  abbrev pub at_nodes : K → AugNode E M → M
  at_nodes key empty = aug.get_empty
  at_nodes key (regular s l e av r) =
      let here = if matches ent key e then aug.from_entry e else aug.get_empty in
      aug.combine (at_nodes key l) (aug.combine here (at_nodes key r))
  at_nodes key (compressed av es) = aug.get_empty

module _ {ℓ κ μ ν} {E : Type ℓ} {K : Type κ} {V : Type μ} {M : Type ν} (ent : Entry E K V)
    (aug : Aug E M) (monoid : IsMonoid aug)
    (comm : (a b : M) → aug.combine a b ≡ aug.combine b a) where
  open ent use {get_key, comp, comp_trans, comp_total, comp_irrefl}
  open aug use {get_empty, from_entry, combine}
  open monoid use {combine_assoc, combine_left, combine_right}

  abbrev root_part : K → E → M
  root_part key e = if matches ent key e then from_entry e else get_empty

  -- Two of the three parts of a node add nothing.
  only_left : {x y z : M} → y ≡ get_empty → z ≡ get_empty → combine x (combine y z) ≡ x
  only_left {x = x} hy hz =
      ap₂ (λ y z. combine x (combine y z)) hy hz ∙ ap (combine x) (combine_left _) ∙ combine_right x

  only_root : {x y z : M} → x ≡ get_empty → z ≡ get_empty → combine x (combine y z) ≡ y
  only_root {y = y} hx hz =
      ap₂ (λ x z. combine x (combine y z)) hx hz ∙ combine_left _ ∙ combine_right y

  only_right : {x y z : M} → x ≡ get_empty → y ≡ get_empty → combine x (combine y z) ≡ z
  only_right {z = z} hx hy =
      ap₂ (λ x y. combine x (combine y z)) hx hy ∙ combine_left _ ∙ combine_left z

  other_root : (key : K) (e : E) → matches ent key e ≡ false → root_part key e ≡ get_empty
  other_root key e h = rw h refl

  at_nodes-none :
      (key : K) (t : AugNode E M)
      → All (λ e. matches ent key e ≡ false) (entries t)
      → at_nodes ent aug key t ≡ get_empty
  at_nodes-none key empty h = refl
  at_nodes-none key (compressed av es) h = refl
  at_nodes-none key (regular s l e av r) h =
      let P = λ (e : E). matches ent key e ≡ false in
      let (here, right) = All-right P (entries l) (e ∷ entries r) h in
      only_left (other_root key e here) (at_nodes-none key r right)
      ∙ at_nodes-none key l (All-left P (entries l) (e ∷ entries r) h)

  decode_cond-sum_left :
      (key : K) (es : List E) (a : M)
      → IsSorted ent es
      → (decode_cond
          (λ a et. if comp (get_key et) key then (true, add_entry aug a et) else (false, a))
          es
          a).1
        ≡ combine a (sum_where aug (less ent key) es)
  unfolding decode_cond
  decode_cond-sum_left key [] a s = sym (combine_right a)
  decode_cond-sum_left key (e ∷ es) a (above, s) = elim (Bool-cases (comp (get_key e) key)) [
    | inl lt ↦ rw lt (
        decode_cond-sum_left key es (add_entry aug a e) s
        ∙ combine_assoc a (from_entry e) (sum_where aug (less ent key) es))
    | inr ge ↦
        let rest : sum_where aug (less ent key) es ≡ get_empty =
          sum_where-none aug (less ent key) es
            (All-imp es (λ x p. ground (arith, comp_trans (get_key e) (get_key x) key)) above) in
        rw (ge, rest) (sym (combine_right a))
  ]

  -- The smaller keys of a list around an entry e, where key is less than that of e, greater, or the same.
  module _ (key : K) (xs : List E) (e : E) (ys : List E) (j : IsJoin ent xs e ys) where
    parts :
        sum_where aug (less ent key) (xs ++ e ∷ ys)
        ≡ combine (sum_where aug (less ent key) xs) (sum_where aug (less ent key) (e ∷ ys))
    parts = sum_where-append aug monoid (less ent key) xs (e ∷ ys)

    smaller : comp key (get_key e) ≡ false → All (λ x. comp (get_key x) key ≡ true) xs
    smaller ge =
        All-imp xs
          (λ x p.
            ground (arith, comp_trans key (get_key x) (get_key e), comp_total (get_key x) key))
          j.left_below

    all_left : comp key (get_key e) ≡ false → sum_where aug (less ent key) xs ≡ sum aug xs
    all_left ge = sum_where-cong aug (less ent key) (λ _. true) xs (smaller ge)

    none_right : comp (get_key e) key ≡ false → sum_where aug (less ent key) ys ≡ get_empty
    none_right ge =
        sum_where-none aug (less ent key) ys
          (All-imp ys (λ x p. ground (arith, comp_trans (get_key e) (get_key x) key)) j.right_above)

    other_left : comp key (get_key e) ≡ false → All (λ x. matches ent key x ≡ false) xs
    other_left ge = All-imp xs (λ x p. ground arith) (smaller ge)

    other_right : comp (get_key e) key ≡ false → All (λ x. matches ent key x ≡ false) ys
    other_right ge =
        All-imp ys
          (λ x p.
            ground (arith, comp_total key (get_key e), comp_trans key (get_key e) (get_key x)))
          j.right_above

    sum_before :
        comp (get_key e) key ≡ false
        → sum_where aug (less ent key) (xs ++ e ∷ ys) ≡ sum_where aug (less ent key) xs
    sum_before ge = parts ∙ rw (ge, none_right ge) (combine_right _)

    sum_after :
        comp (get_key e) key ≡ true
        → sum_where aug (less ent key) (xs ++ e ∷ ys)
          ≡ combine (sum aug xs) (combine (from_entry e) (sum_where aug (less ent key) ys))
    sum_after lt = parts ∙ rw (lt, all_left (comp_asym ent (get_key e) key lt)) refl

  -- In a commutative monoid, for a tree with right sums and its entries in the order of their keys:
  -- `aug_sum_left` adds to `a` the sum of the entries with smaller keys, and the entry of the key
  -- itself where it stands at a regular node; in a block that entry is left out.
  pub aug_sum_left-eq_sum_where :
      (t : AugNode E M) (key : K) (a : M)
      → IsCached aug t
      → IsSorted ent (entries t)
      → aug_sum_left ent aug t key a
        ≡ combine a (combine (sum_where aug (less ent key) (entries t)) (at_nodes ent aug key t))
  unfolding aug_sum_left iterate_cond
  aug_sum_left-eq_sum_where empty key a h s =
      sym (combine_right a) ∙ ap (combine a) (sym (combine_right get_empty))
  aug_sum_left-eq_sum_where (compressed av es) key a h s =
      decode_cond-sum_left key es a s ∙ ap (combine a) (sym (combine_right _))
  aug_sum_left-eq_sum_where (regular n l e av r) key a (hl, hr, h) s =
      let j = IsSorted-split ent (entries l) e (entries r) s in
      let with_left : aug_sum_left ent aug r key (add_child aug (add_entry aug a e) l)
          ≡ combine a (
              combine (sum aug (entries l)) (
                combine (from_entry e)
                  (combine (sum_where aug (less ent key) (entries r)) (at_nodes ent aug key r)))) =
        aug_sum_left-eq_sum_where r key (add_child aug (add_entry aug a e) l) hr j.right_sorted
        ∙ rw (add_child-eq_sum ent aug monoid comm (add_entry aug a e) l hl)
            (root_before ent aug monoid comm a (from_entry e) (sum aug (entries l)) _) in
      elim (Bool-cases (comp key (get_key e))) [
        | inl lt ↦
            let ge = comp_asym ent key (get_key e) lt in
            let later = at_nodes-none key r (other_right key (entries l) e (entries r) j ge) in
            let sums = sum_before key (entries l) e (entries r) j ge in
            rw lt (
              aug_sum_left-eq_sum_where l key a hl j.left_sorted
              ∙ ap (combine a)
                  (sym (ap₂ combine sums (only_left (other_root key e (ground arith)) later))))
        | inr ge ↦
            let early = at_nodes-none key l (other_left key (entries l) e (entries r) j ge) in
            rw ge (
              with_left
              ∙ ap (combine a) (elim (Bool-cases (comp (get_key e) key)) [
                | inl lt ↦
                    let sums = sum_after key (entries l) e (entries r) j lt in
                    ap (combine (sum aug (entries l))) (sym (combine_assoc _ _ _))
                    ∙ sym (combine_assoc _ _ _)
                    ∙ sym (ap₂ combine sums (only_right early (other_root key e (ground arith))))
                | inr same ↦
                    let none = none_right key (entries l) e (entries r) j same in
                    let later =
                      at_nodes-none key r (other_right key (entries l) e (entries r) j same) in
                    let sums =
                      sum_before key (entries l) e (entries r) j same
                      ∙ all_left key (entries l) e (entries r) j ge in
                    ap (combine (sum aug (entries l))) (
                      ap (combine (from_entry e)) (ap₂ combine none later ∙ combine_left _)
                      ∙ combine_right _)
                    ∙ sym (ap₂ combine sums (only_root early later ∙ rw (ge, same) refl))
              ]))
      ]
