-- ===== src/Build/Runs.antt =====
-- Of each run of entries of one key the first is kept.
use cpam.Base.{
  ◌≡◌, refl, sym, ap, ◌∙◌, false, none, some, List, [], ◌∷◌, if◌then◌else◌, All, arith, Bool-cases,
  Option-cases, ◌⊎◌, inl, inr, subst,
}
use mathlib.Core.Option.{some-injective, none-ne-some}
use mathlib.Core.List.{Permᴰ, Memᴰ}
use cpam.Build.{IsOrdered, IsSorting, less, pack_behind, pack, sort_remove_duplicates}
use cpam.Entry.{Entry}
use cpam.Entry.Sorted.{Above, IsSorted, lookup, Above-trans}
use cpam.Map.Search.{matches}

module _ {ℓ} {E : Type ℓ} where
  pub Memᴰ-Permᴰ : {a : E} {xs ys : List E} → Permᴰ xs ys → Memᴰ a xs → Memᴰ a ys
  Memᴰ-Permᴰ Permᴰ.nil m = elim m [ ]
  Memᴰ-Permᴰ (Permᴰ.cons e d) (Memᴰ.head h) = Memᴰ.head (h ∙ e)
  Memᴰ-Permᴰ (Permᴰ.cons e d) (Memᴰ.tail m) = Memᴰ.tail (Memᴰ-Permᴰ d m)
  Memᴰ-Permᴰ (Permᴰ.swap e e') (Memᴰ.head h) = Memᴰ.tail (Memᴰ.head (h ∙ e))
  Memᴰ-Permᴰ (Permᴰ.swap e e') (Memᴰ.tail (Memᴰ.head h)) = Memᴰ.head (h ∙ e')
  Memᴰ-Permᴰ (Permᴰ.swap e e') (Memᴰ.tail (Memᴰ.tail m)) = Memᴰ.tail (Memᴰ.tail m)
  Memᴰ-Permᴰ (Permᴰ.trans d d') m = Memᴰ-Permᴰ d' (Memᴰ-Permᴰ d m)

  pub All-Permᴰ {κ} : (P : E → Type κ) {xs ys : List E} → Permᴰ xs ys → All P xs → All P ys
  All-Permᴰ P Permᴰ.nil a = a
  All-Permᴰ P (Permᴰ.cons e d) (p, a) = (subst P e p, All-Permᴰ P d a)
  All-Permᴰ P (Permᴰ.swap e e') (p, (q, a)) = (subst P e' q, (subst P e p, a))
  All-Permᴰ P (Permᴰ.trans d d') a = All-Permᴰ P d' (All-Permᴰ P d a)

module _ {ℓ κ μ} {E : Type ℓ} {K : Type κ} {V : Type μ} (ent : Entry E K V) where
  open ent use {get_key, comp, comp_irrefl, comp_trans, comp_total}

  same_key : (x y : E) → less ent y x ≡ false → less ent x y ≡ false → get_key y ≡ get_key x
  same_key x y h h' = comp_total (get_key y) (get_key x) h h'

  pack_behind-Above :
      (x : E) (xs : List E)
      → IsOrdered (less ent) (x ∷ xs)
      → Above ent (get_key x) (pack_behind ent x xs) × IsSorted ent (pack_behind ent x xs)
  unfolding pack_behind
  pack_behind-Above x [] h = (tt, tt)
  pack_behind-Above x (y ∷ ys) ((h, _), rest) =
      let (above, sorted) = pack_behind-Above y ys rest in
      elim (Bool-cases (less ent x y)) [
        | inl lt ↦ rw lt ((lt, Above-trans ent (get_key x) (get_key y) _ lt above), (above, sorted))
        | inr ge ↦
            rw ge
              (subst (λ k. Above ent k (pack_behind ent y ys)) (same_key x y h ge) above, sorted)
      ]

  lookup-pack_behind :
      (q : K) (x : E) (xs : List E)
      → IsOrdered (less ent) (x ∷ xs)
      → lookup ent q (x ∷ pack_behind ent x xs) ≡ lookup ent q (x ∷ xs)
  unfolding pack_behind
  lookup-pack_behind q x [] h = refl
  lookup-pack_behind q x (y ∷ ys) ((h, _), rest) =
      let deeper = lookup-pack_behind q y ys rest in
      elim (Bool-cases (less ent x y)) [
        | inl lt ↦ rw lt (
            ap (λ o. if comp q (get_key x) then o else if comp (get_key x) q then o else some x)
              deeper)
        | inr ge ↦
            let same = same_key x y h ge in
            let on_left : comp q (get_key y) ≡ comp q (get_key x) = ap (comp q) same in
            let on_right : comp (get_key y) q ≡ comp (get_key x) q = ap (λ k. comp k q) same in
            rw ge (ground (arith, on_left, on_right, deeper))
      ]

  -- The array is in the order of its keys, and a key finds in it the first of its entries in the sorted one.
  pub record IsPacked (xs ys : List E) : Type (ℓ ⊔ κ) where
    pub in_order : IsSorted ent ys
    pub finds_first : (q : K) → lookup ent q ys ≡ lookup ent q xs

  pub pack-IsPacked : (xs : List E) → IsOrdered (less ent) xs → IsPacked xs (pack ent xs)
  unfolding pack
  pack-IsPacked [] h = record { in_order = tt; finds_first = λ q. refl }
  pack-IsPacked (x ∷ xs) h = record {
    in_order = pack_behind-Above x xs h;
    finds_first = λ q. lookup-pack_behind q x xs h;
  }

  pub lookup-Memᴰ :
      (q : K) (xs : List E) {e : E} → lookup ent q xs ≡ some e → Memᴰ e xs × (get_key e ≡ q)
  lookup-Memᴰ q [] h = cc
  lookup-Memᴰ q (x ∷ xs) {e = e} h = elim (Bool-cases (comp q (get_key x))) [
    | inl lt ↦ let (m, same) = lookup-Memᴰ q xs (rw lt at h) in (Memᴰ.tail m, same)
    | inr ge ↦ elim (Bool-cases (comp (get_key x) q)) [
      | inl gt ↦ let (m, same) = lookup-Memᴰ q xs (rw (ge, gt) at h) in (Memᴰ.tail m, same)
      | inr le ↦
          let here : x ≡ e = some-injective x e (rw (ge, le) at h) in
          (Memᴰ.head (sym here), ap get_key (sym here) ∙ comp_total (get_key x) q le ge)
    ]
  ]

  -- Where a key finds nothing no entry has it, and the other way round.
  pub lookup-missing :
      (q : K) (xs : List E) → lookup ent q xs ≡ none → All (λ e. matches ent q e ≡ false) xs
  lookup-missing q [] h = tt
  lookup-missing q (x ∷ xs) h = elim (Bool-cases (comp q (get_key x))) [
    | inl lt ↦ (rw lt refl, lookup-missing q xs (rw lt at h))
    | inr ge ↦ elim (Bool-cases (comp (get_key x) q)) [
      | inl gt ↦ (rw (ge, gt) refl, lookup-missing q xs (rw (ge, gt) at h))
      | inr le ↦ absurd (none-ne-some x (sym (rw (ge, le) at h)))
    ]
  ]

  -- One entry for each key of an array, in the order of the keys.
  pub record IsDeduplicated (xs ys : List E) : Type (ℓ ⊔ κ) where
    pub in_order : IsSorted ent ys
    pub answers :
        (q : K)
        → ((lookup ent q ys ≡ none) × All (λ e. matches ent q e ≡ false) xs)
          ⊎ ((e : E) × (lookup ent q ys ≡ some e) × Memᴰ e xs × (get_key e ≡ q))

  -- `sort_remove_duplicates` keeps one entry of each key.
  pub sort_remove_duplicates-IsDeduplicated :
      (sort : List E → List E) (xs : List E)
      → IsSorting (less ent) sort
      → IsDeduplicated xs (sort_remove_duplicates ent sort xs)
  unfolding sort_remove_duplicates
  sort_remove_duplicates-IsDeduplicated sort [] laws = record {
    in_order = tt;
    answers = λ q. inl (refl, tt);
  }
  sort_remove_duplicates-IsDeduplicated sort (x ∷ xs) laws =
      let ys = sort (x ∷ xs) in
      let packed = pack-IsPacked ys (laws.ordered (x ∷ xs)) in
      let perm = laws.permuted (x ∷ xs) in
      record {
        in_order = packed.in_order;
        answers = λ q. elim (Option-cases (lookup ent q ys)) [
          | inl missing ↦ inl (
            packed.finds_first q ∙ missing,
            All-Permᴰ (λ e. matches ent q e ≡ false) perm (lookup-missing q ys missing),
          )
          | inr (e, found) ↦
              let (m, same) = lookup-Memᴰ q ys found in
              inr (e, packed.finds_first q ∙ found, Memᴰ-Permᴰ perm m, same)
        ];
      }
