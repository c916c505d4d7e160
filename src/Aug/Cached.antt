-- ===== src/Aug/Cached.antt =====
-- Every sum that a node keeps is the sum of the entries below it.
use cpam.Base.{
  ◌≡◌, refl, sym, ap, ap₂, ◌∙◌, Bool, true, List, [], ◌∷◌, ◌++◌, if◌then◌else◌, Bool-cases, inl,
  inr,
}
use cpam.Aug.{
  AugNode, empty, regular, compressed, Aug, is_empty, aug_val, updated_val, update, single,
  encode_from, make_single_compressed_node,
}

pub record IsMonoid {ℓ ν} {E : Type ℓ} {M : Type ν} (aug : Aug E M) : Type ν where
  pub combine_assoc :
      (a b c : M) → aug.combine (aug.combine a b) c ≡ aug.combine a (aug.combine b c)
  pub combine_left : (a : M) → aug.combine (aug.get_empty) a ≡ a
  pub combine_right : (a : M) → aug.combine a (aug.get_empty) ≡ a

abbrev pub entries {ℓ ν} : {E : Type ℓ} {M : Type ν} → AugNode E M → List E
entries empty = []
entries (regular s l e av r) = entries l ++ e ∷ entries r
entries (compressed av es) = es

-- The sum of the entries of a list that pass a test, in their order.
abbrev pub sum_where {ℓ ν} : {E : Type ℓ} {M : Type ν} → Aug E M → (E → Bool) → List E → M
sum_where aug p [] = aug.get_empty
sum_where aug p (e ∷ es) =
    let rest = sum_where aug p es in if p e then aug.combine (aug.from_entry e) rest else rest

abbrev pub sum {ℓ ν} : {E : Type ℓ} {M : Type ν} → Aug E M → List E → M
sum aug es = sum_where aug (λ _. true) es

abbrev pub IsCached {ℓ ν} : {E : Type ℓ} {M : Type ν} → Aug E M → AugNode E M → Type ν
IsCached aug empty = Unit
IsCached aug (regular s l e av r) =
    IsCached aug l × IsCached aug r × (av ≡ sum aug (entries l ++ e ∷ entries r))
IsCached aug (compressed av es) = av ≡ sum aug es

-- The nodes that the writers of sums build.
pub data Built {ℓ ν} {E : Type ℓ} {M : Type ν} (aug : Aug E M) : AugNode E M → Type (ℓ ⊔ ν) where
  built_empty : Built aug empty
  built_single : (e : E) → Built aug (single aug e)
  built_block : (e : E) (es : List E) → Built aug (make_single_compressed_node aug e es)
  built_update :
      (l : AugNode E M) (e : E) (r : AugNode E M)
      → Built aug l
      → Built aug r
      → Built aug (update aug l e r)

module _ {ℓ ν} {E : Type ℓ} {M : Type ν} (aug : Aug E M) (monoid : IsMonoid aug) where
  open aug use {get_empty, from_entry, combine}
  open monoid use {combine_assoc, combine_left, combine_right}

  pub sum_where-append :
      (p : E → Bool) (xs ys : List E)
      → sum_where aug p (xs ++ ys) ≡ combine (sum_where aug p xs) (sum_where aug p ys)
  sum_where-append p [] ys = sym (combine_left _)
  sum_where-append p (x ∷ xs) ys = elim (Bool-cases (p x)) [
    | inl taken ↦ rw taken (
        ap (combine (from_entry x)) (sum_where-append p xs ys)
        ∙ sym (combine_assoc (from_entry x) (sum_where aug p xs) (sum_where aug p ys)))
    | inr left_out ↦ rw left_out (sum_where-append p xs ys)
  ]

  pub aug_val-eq_sum : (t : AugNode E M) → IsCached aug t → aug_val aug t ≡ sum aug (entries t)
  unfolding aug_val
  aug_val-eq_sum empty h = refl
  aug_val-eq_sum (regular s l e av r) (hl, hr, h) = h
  aug_val-eq_sum (compressed av es) h = h

  -- A missing child adds nothing.
  before :
      (l : AugNode E M) (x : M)
      → (if is_empty l then x else combine (aug_val aug l) x) ≡ combine (aug_val aug l) x
  unfolding aug_val
  before empty x = sym (combine_left x)
  before (regular s l e av r) x = refl
  before (compressed av es) x = refl

  after :
      (r : AugNode E M) (x : M)
      → (if is_empty r then x else combine x (aug_val aug r)) ≡ combine x (aug_val aug r)
  unfolding aug_val
  after empty x = sym (combine_right x)
  after (regular s l e av r) x = refl
  after (compressed av es) x = refl

  updated_val-eq_sum :
      (l : AugNode E M) (e : E) (r : AugNode E M)
      → IsCached aug l
      → IsCached aug r
      → updated_val aug l e r ≡ sum aug (entries l ++ e ∷ entries r)
  updated_val-eq_sum l e r hl hr =
      after r (if is_empty l then from_entry e else combine (aug_val aug l) (from_entry e))
      ∙ ap (λ x. combine x (aug_val aug r)) (before l (from_entry e))
      ∙ combine_assoc (aug_val aug l) (from_entry e) (aug_val aug r)
      ∙ ap₂ (λ x y. combine x (combine (from_entry e) y)) (aug_val-eq_sum l hl)
          (aug_val-eq_sum r hr)
      ∙ sym (sum_where-append (λ _. true) (entries l) (e ∷ entries r))

  encode_from-eq_sum : (av : M) (es : List E) → encode_from aug av es ≡ combine av (sum aug es)
  unfolding encode_from
  encode_from-eq_sum av [] = sym (combine_right av)
  encode_from-eq_sum av (e ∷ es) =
      encode_from-eq_sum (combine av (from_entry e)) es
      ∙ combine_assoc av (from_entry e) (sum aug es)

  -- In a monoid: in every tree that `single`, `make_single_compressed_node` and `update` build from
  -- the empty tree each node keeps the sum of the entries below it, from left to right.
  pub Built-IsCached : {t : AugNode E M} → Built aug t → IsCached aug t
  unfolding update single make_single_compressed_node
  Built-IsCached built_empty = tt
  Built-IsCached (built_single e) = (tt, tt, sym (combine_right (from_entry e)))
  Built-IsCached (built_block e es) = encode_from-eq_sum (from_entry e) es
  Built-IsCached (built_update l e r hl hr) =
      let cl = Built-IsCached hl in
      let cr = Built-IsCached hr in (cl, cr, updated_val-eq_sum l e r cl cr)
