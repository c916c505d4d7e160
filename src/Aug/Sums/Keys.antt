-- ===== src/Aug/Sums/Keys.antt =====
-- The sums over the keys on one side of a key.
use cpam.Base.{
  ◌≡◌, refl, sym, ap, ap₂, ◌∙◌, Bool, true, false, not, List, [], ◌∷◌, if◌then◌else◌, All, arith,
  Bool-cases, inl, inr,
}
use cpam.Node.{decode}
use cpam.Aug.{AugNode, empty, regular, compressed, Aug, aug_val, iterate_seq}
use cpam.Aug.Cached.{IsMonoid, IsCached, entries, sum, sum_where, sum_where-append}
use cpam.Aug.Sums.{add_entry, add_child, aug_sum_right}
use cpam.Entry.{Entry}
use cpam.Entry.Sorted.{All-imp, IsSorted, IsSorted-split}

module _ {ℓ ν} {E : Type ℓ} {M : Type ν} (aug : Aug E M) where
  pub sum_where-cong :
      (p q : E → Bool) (es : List E)
      → All (λ e. p e ≡ q e) es
      → sum_where aug p es ≡ sum_where aug q es
  sum_where-cong p q [] h = refl
  sum_where-cong p q (e ∷ es) (same, h) =
      ap₂ (λ b rest. if b then aug.combine (aug.from_entry e) rest else rest) same
        (sum_where-cong p q es h)

  pub sum_where-none :
      (p : E → Bool) (es : List E) → All (λ e. p e ≡ false) es → sum_where aug p es ≡ aug.get_empty
  sum_where-none p [] h = refl
  sum_where-none p (e ∷ es) (fails, h) = rw fails (sum_where-none p es h)

module _ {ℓ κ μ} {E : Type ℓ} {K : Type κ} {V : Type μ} (ent : Entry E K V) where
  open ent use {get_key, comp}

  abbrev pub at_least : K → E → Bool
  at_least key e = not (comp (get_key e) key)

  abbrev pub less : K → E → Bool
  less key e = comp (get_key e) key

module _ {ℓ κ μ ν} {E : Type ℓ} {K : Type κ} {V : Type μ} {M : Type ν} (ent : Entry E K V)
    (aug : Aug E M) (monoid : IsMonoid aug)
    (comm : (a b : M) → aug.combine a b ≡ aug.combine b a) where
  open ent use {get_key, comp, comp_trans, comp_total, comp_irrefl}
  open aug use {get_empty, from_entry, combine}
  open monoid use {combine_assoc, combine_left, combine_right}

  pub decode-sum_where :
      (p : E → Bool) (es : List E) (a : M)
      → decode (λ a et. if p et then add_entry aug a et else a) es a
        ≡ combine a (sum_where aug p es)
  unfolding decode
  decode-sum_where p [] a = sym (combine_right a)
  decode-sum_where p (e ∷ es) a = elim (Bool-cases (p e)) [
    | inl taken ↦ rw taken (
        decode-sum_where p es (add_entry aug a e)
        ∙ combine_assoc a (from_entry e) (sum_where aug p es))
    | inr left_out ↦ rw left_out (decode-sum_where p es a)
  ]

  pub add_child-eq_sum :
      (a : M) (t : AugNode E M)
      → IsCached aug t
      → add_child aug a t ≡ combine a (sum aug (entries t))
  unfolding aug_val
  add_child-eq_sum a empty h = sym (combine_right a)
  add_child-eq_sum a (regular s l e av r) (hl, hr, h) = ap (combine a) h
  add_child-eq_sum a (compressed av es) h = ap (combine a) h

  root_behind :
      (a e x y : M) → combine (combine (combine a e) x) y ≡ combine a (combine y (combine e x))
  root_behind a e x y =
      ap (λ z. combine z y) (combine_assoc a e x)
      ∙ combine_assoc a (combine e x) y
      ∙ ap (combine a) (comm (combine e x) y)

  pub root_before :
      (a e x y : M) → combine (combine (combine a e) x) y ≡ combine a (combine x (combine e y))
  root_before a e x y =
      ap (λ z. combine z y) (combine_assoc a e x ∙ ap (combine a) (comm e x))
      ∙ combine_assoc a (combine x e) y
      ∙ ap (combine a) (combine_assoc x e y)

  -- In a commutative monoid, for a tree with right sums and its entries in the order of their keys:
  -- `aug_sum_right` adds to `a` the sum of the entries with keys that are not less than the key.
  pub aug_sum_right-eq_sum_where :
      (t : AugNode E M) (key : K) (a : M)
      → IsCached aug t
      → IsSorted ent (entries t)
      → aug_sum_right ent aug t key a ≡ combine a (sum_where aug (at_least ent key) (entries t))
  unfolding aug_sum_right iterate_seq
  aug_sum_right-eq_sum_where empty key a h s = sym (combine_right a)
  aug_sum_right-eq_sum_where (compressed av es) key a h s = decode-sum_where (at_least ent key) es a
  aug_sum_right-eq_sum_where (regular n l e av r) key a (hl, hr, h) s =
      let j = IsSorted-split ent (entries l) e (entries r) s in
      let parts = sum_where-append aug monoid (at_least ent key) (entries l) (e ∷ entries r) in
      elim (Bool-cases (comp (get_key e) key)) [
        | inl lt ↦
            let none_left : sum_where aug (at_least ent key) (entries l) ≡ get_empty =
              sum_where-none aug (at_least ent key) (entries l) (
                All-imp (entries l) (λ x p. ap not (comp_trans (get_key x) (get_key e) key p lt))
                  j.left_below) in
            rw lt (
              aug_sum_right-eq_sum_where r key a hr j.right_sorted
              ∙ ap (combine a) (rw (parts, none_left, lt) (sym (combine_left _))))
        | inr ge ↦
            let all_right : sum_where aug (at_least ent key) (entries r) ≡ sum aug (entries r) =
              sum_where-cong aug (at_least ent key) (λ _. true) (entries r)
                (All-imp (entries r) (λ x p. ground (arith, comp_trans (get_key e) (get_key x) key))
                  j.right_above) in
            rw ge (
              aug_sum_right-eq_sum_where l key (add_child aug (add_entry aug a e) r) hl
                j.left_sorted
              ∙ rw (add_child-eq_sum (add_entry aug a e) r hr, parts, ge, all_right)
                  (root_behind a (from_entry e) (sum aug (entries r))
                    (sum_where aug (at_least ent key) (entries l))))
      ]
