-- ===== src/Entry/Sorted.antt =====
-- Lists of entries in the order of their keys, and the entry that a key finds.
use cpam.Base.{
  ◌≡◌, refl, sym, ap, ◌∙◌, subst, true, false, Option, none, some, List, [], ◌∷◌, ◌++◌,
  if◌then◌else◌, All, arith, Option-cases, Bool-cases, inl, inr,
}
use mathlib.Core.Option.{some-injective}
use cpam.Entry.{Entry}

module _ {ℓ} {E : Type ℓ} where
  pub All-append {κ} : (P : E → Type κ) (xs ys : List E) → All P xs → All P ys → All P (xs ++ ys)
  All-append P [] ys a b = b
  All-append P (x ∷ xs) ys (p, a) b = (p, All-append P xs ys a b)

  pub All-left {κ} : (P : E → Type κ) (xs ys : List E) → All P (xs ++ ys) → All P xs
  All-left P [] ys a = tt
  All-left P (x ∷ xs) ys (p, a) = (p, All-left P xs ys a)

  pub All-right {κ} : (P : E → Type κ) (xs ys : List E) → All P (xs ++ ys) → All P ys
  All-right P [] ys a = a
  All-right P (x ∷ xs) ys (p, a) = All-right P xs ys a

  pub All-imp {κ ν} :
      {P : E → Type κ} {Q : E → Type ν} (xs : List E) → ((x : E) → P x → Q x) → All P xs → All Q xs
  All-imp [] f a = tt
  All-imp (x ∷ xs) f (p, a) = (f x p, All-imp xs f a)

-- The first answer, or else the second.
abbrev pub or_else {ℓ} : {E : Type ℓ} → Option E → Option E → Option E
or_else none o = o
or_else (some e) o = some e

-- What an entry makes of the answers from its left and its right.
abbrev pub lookup_at {ℓ κ μ} :
    {E : Type ℓ} {K : Type κ} {V : Type μ} → Entry E K V → K → E → Option E → Option E → Option E
lookup_at ent q e on_left on_right =
    if ent.comp q (ent.get_key e)
    then on_left
    else if ent.comp (ent.get_key e) q
    then on_right
    else some e

module _ {ℓ κ μ} {E : Type ℓ} {K : Type κ} {V : Type μ} (ent : Entry E K V) where
  open ent use {get_key, comp, comp_irrefl, comp_trans, comp_total}

  pub comp_asym : (a b : K) → comp a b ≡ true → comp b a ≡ false
  comp_asym a b h = ground (arith, comp_trans a b a, comp_irrefl a)

  -- Keys that are neither less nor greater compare alike with every key.
  pub same_less : (a q k : K) → comp q a ≡ false → comp a q ≡ false → comp q k ≡ comp a k
  same_less a q k h1 h2 = ap (λ x. comp x k) (comp_total q a h1 h2)

  pub same_greater : (a q k : K) → comp q a ≡ false → comp a q ≡ false → comp k q ≡ comp k a
  same_greater a q k h1 h2 = ap (comp k) (comp_total q a h1 h2)

  abbrev pub Below : K → List E → Type 0
  Below k xs = All (λ e. comp (get_key e) k ≡ true) xs

  abbrev pub Above : K → List E → Type 0
  Above k xs = All (λ e. comp k (get_key e) ≡ true) xs

  abbrev pub IsSorted : List E → Type 0
  IsSorted [] = Unit
  IsSorted (x ∷ xs) = Above (get_key x) xs × IsSorted xs

  -- The entry of a key in a list, by comparison alone.
  abbrev pub lookup : K → List E → Option E
  lookup q [] = none
  lookup q (x ∷ xs) =
      let rest = lookup q xs in
      if comp q (get_key x) then rest else if comp (get_key x) q then rest else some x

  pub Above-trans : (a b : K) (xs : List E) → comp a b ≡ true → Above b xs → Above a xs
  Above-trans a b xs h above = All-imp xs (λ x p. comp_trans a b (get_key x) h p) above

  pub Below-trans : (a b : K) (xs : List E) → comp a b ≡ true → Below a xs → Below b xs
  Below-trans a b xs h below = All-imp xs (λ x p. comp_trans (get_key x) a b p h) below

  pub IsSorted-join :
      (xs : List E) (e : E) (ys : List E)
      → IsSorted xs
      → Below (get_key e) xs
      → Above (get_key e) ys
      → IsSorted ys
      → IsSorted (xs ++ e ∷ ys)
  IsSorted-join [] e ys s below above t = (above, t)
  IsSorted-join (x ∷ xs) e ys (front, s) (b, below) above t = (
    All-append (λ f. comp (get_key x) (get_key f) ≡ true) xs (e ∷ ys) front
        (b, Above-trans (get_key x) (get_key e) ys b above),
    IsSorted-join xs e ys s below above t,
  )

  pub record IsJoin (xs : List E) (e : E) (ys : List E) : Type 0 where
    pub left_sorted : IsSorted xs
    pub right_sorted : IsSorted ys
    pub left_below : Below (get_key e) xs
    pub right_above : Above (get_key e) ys

  pub IsSorted-split :
      (xs : List E) (e : E) (ys : List E) → IsSorted (xs ++ e ∷ ys) → IsJoin xs e ys
  IsSorted-split [] e ys (above, t) = record {
    left_sorted = tt;
    right_sorted = t;
    left_below = tt;
    right_above = above;
  }
  IsSorted-split (x ∷ xs) e ys (above, s) =
      let rest = IsSorted-split xs e ys s in
      record {
        left_sorted = (
          All-left (λ f. comp (get_key x) (get_key f) ≡ true) xs (e ∷ ys) above,
          rest.left_sorted,
        );
        right_sorted = rest.right_sorted;
        left_below = (
          (All-right (λ f. comp (get_key x) (get_key f) ≡ true) xs (e ∷ ys) above).0,
          rest.left_below,
        );
        right_above = rest.right_above;
      }

  pub lookup-Above : (q : K) (xs : List E) → Above q xs → lookup q xs ≡ none
  lookup-Above q [] a = refl
  lookup-Above q (x ∷ xs) (p, a) = rw p (lookup-Above q xs a)

  pub lookup-Below : (q : K) (xs : List E) → Below q xs → lookup q xs ≡ none
  lookup-Below q [] a = refl
  lookup-Below q (x ∷ xs) (p, a) = rw (comp_asym (get_key x) q p, p) (lookup-Below q xs a)

  -- A list with an entry between smaller and greater ones is searched on one side of it.
  pub lookup-middle :
      (q : K) (xs : List E) (e : E) (ys : List E)
      → Below (get_key e) xs
      → Above (get_key e) ys
      → lookup q (xs ++ e ∷ ys) ≡ lookup_at ent q e (lookup q xs) (lookup q ys)
  lookup-middle q [] e ys below above = elim (Bool-cases (comp q (get_key e))) [
    | inl lt ↦ rw lt (lookup-Above q ys (Above-trans q (get_key e) ys lt above))
    | inr ge ↦ rw ge refl
  ]
  lookup-middle q (x ∷ xs) e ys (b, below) above = ground (
    arith,
    lookup-middle q xs e ys below above,
    comp_trans (get_key e) q (get_key x),
    comp_trans q (get_key x) (get_key e),
    comp_trans (get_key x) (get_key e) q,
    comp_trans (get_key x) q (get_key e),
    comp_total q (get_key x),
    comp_irrefl (get_key e),
    comp_irrefl q,
    comp_irrefl (get_key x),
    lookup-Below q xs,
  )

  -- A found entry has the key that was asked for, and what holds of all entries holds of it.
  pub lookup-All {κ'} :
      (P : E → Type κ') (q : K) (xs : List E) {e : E}
      → All P xs
      → lookup q xs ≡ some e
      → P e × (get_key e ≡ q)
  lookup-All P q [] a h = cc
  lookup-All P q (x ∷ xs) {e = e} (p, a) h = elim (Bool-cases (comp q (get_key x))) [
    | inl lt ↦ lookup-All P q xs a (rw lt at h)
    | inr ge ↦ elim (Bool-cases (comp (get_key x) q)) [
      | inl gt ↦ lookup-All P q xs a (rw (ge, gt) at h)
      | inr le ↦
          let same : x ≡ e = some-injective x e (rw (ge, le) at h) in
          (subst P same p, ap get_key (sym same) ∙ comp_total (get_key x) q le ge)
    ]
  ]

  -- What holds of every found entry holds of all entries of a sorted list.
  pub All-of_lookup {κ'} :
      (P : E → Type κ') (xs : List E)
      → IsSorted xs
      → ((q : K) (e : E) → lookup q xs ≡ some e → P e)
      → All P xs
  All-of_lookup P [] s h = tt
  All-of_lookup P (x ∷ xs) (above, s) h = (
    h (get_key x) x (rw (comp_irrefl (get_key x)) refl),
    All-of_lookup P xs s λ q e found.
        let (after, same) =
          lookup-All (λ f. comp (get_key x) (get_key f) ≡ true) q xs above found in
        h q e (
          let later : comp (get_key x) q ≡ true = rw same at after in
          rw (comp_asym (get_key x) q later, later) found),
  )

  All-unit : (xs : List E) → All (λ _. Unit {0}) xs
  All-unit [] = tt
  All-unit (x ∷ xs) = (tt, All-unit xs)

  pub lookup-key : (q : K) (xs : List E) {e : E} → lookup q xs ≡ some e → get_key e ≡ q
  lookup-key q xs h = (lookup-All (λ _. Unit {0}) q xs (All-unit xs) h).1

  -- No key outside the bounds of a list is found in it.
  pub lookup-past_last :
      (k q : K) (xs : List E) → Below k xs → comp q k ≡ false → lookup q xs ≡ none
  lookup-past_last k q xs below h = elim (Option-cases (lookup q xs)) [
    | inl missing ↦ missing
    | inr (e, found) ↦
        let (lt, same) = lookup-All (λ e. comp (get_key e) k ≡ true) q xs below found in
        cc (let lt' : comp q k ≡ true = rw same at lt in lt')
  ]

  pub lookup-past_first :
      (k q : K) (xs : List E) → Above k xs → comp k q ≡ false → lookup q xs ≡ none
  lookup-past_first k q xs above h = elim (Option-cases (lookup q xs)) [
    | inl missing ↦ missing
    | inr (e, found) ↦
        let (lt, same) = lookup-All (λ e. comp k (get_key e) ≡ true) q xs above found in
        cc (let lt' : comp k q ≡ true = rw same at lt in lt')
  ]

  pub IsSorted-append :
      (k : K) (xs ys : List E)
      → IsSorted xs
      → Below k xs
      → Above k ys
      → IsSorted ys
      → IsSorted (xs ++ ys)
  IsSorted-append k [] ys s b a t = t
  IsSorted-append k (x ∷ xs) ys (front, s) (p, b) a t = (
    All-append (λ f. comp (get_key x) (get_key f) ≡ true) xs ys front
        (Above-trans (get_key x) k ys p a),
    IsSorted-append k xs ys s b a t,
  )

  pub lookup-append :
      (k q : K) (xs ys : List E)
      → Below k xs
      → Above k ys
      → lookup q (xs ++ ys) ≡ or_else (lookup q xs) (lookup q ys)
  lookup-append k q [] ys b a = refl
  lookup-append k q (x ∷ xs) ys (p, b) a = ground (arith, lookup-append k q xs ys b a)
