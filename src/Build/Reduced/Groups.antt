-- ===== src/Build/Reduced/Groups.antt =====
-- The runs of pairs of one key in a sorted array, found without positions, and what a key finds in them.
use cpam.Base.{
  ◌≡◌, refl, sym, ap, true, Option, none, some, List, [], ◌∷◌, if◌then◌else◌, arith, Bool-cases,
  inl, inr, subst,
}
use cpam.Build.{IsOrdered}
use cpam.Build.Reduced.{less_pair}
use cpam.Entry.{Entry}
use cpam.Entry.Sorted.{Above, IsSorted, lookup, Above-trans, lookup-Above, comp_asym}

module _ {ℓ κ μ ι} {E : Type ℓ} {K : Type κ} {V : Type μ} {W : Type ι} (ent : Entry E K V) where
  open ent use {comp, comp_irrefl, comp_trans, comp_total}

  -- The run of a pair, with the values of its key behind it, and the later runs.
  abbrev pub start : K × W → List W × List (K × List W) → List (K × List W)
  start x (vs, later) = (x.0, x.1 ∷ vs) ∷ later

  -- The values behind `last` in its run, and the later runs.
  unfoldable pub runs_behind : K × W → List (K × W) → List W × List (K × List W)
  runs_behind last [] = ([], [])
  runs_behind last (x ∷ xs) =
      let rest = runs_behind x xs in
      let next : List W × List (K × List W) = ([], start x rest) in
      let same : List W × List (K × List W) = (x.1 ∷ rest.0, rest.1) in
      if less_pair ent last x then next else same

  unfoldable pub runs : List (K × W) → List (K × List W)
  runs [] = []
  runs (x ∷ xs) = start x (runs_behind x xs)

  -- The values of a key.
  abbrev pub values_of : K → List (K × W) → List W
  values_of q [] = []
  values_of q (x ∷ xs) =
      let rest = values_of q xs in
      if comp q (x.0) then rest else if comp (x.0) q then rest else x.1 ∷ rest

  -- A key that is smaller than all has no values.
  values_of_smaller :
      (q : K) (x : K × W) (xs : List (K × W))
      → comp q (x.0) ≡ true
      → IsOrdered (less_pair ent) (x ∷ xs)
      → values_of q xs ≡ []
  values_of_smaller q x [] lt h = refl
  values_of_smaller q x (y ∷ ys) lt ((ge, behind), rest) =
      let lt' : comp q (y.0) ≡ true =
        ground (arith, comp_total (y.0) q, comp_trans q (x.0) (y.0), comp_total (x.0) (y.0)) in
      rw lt' (values_of_smaller q y ys lt' rest)

  values_of_run :
      (x : K × W) (xs : List (K × W))
      → IsOrdered (less_pair ent) (x ∷ xs)
      → values_of (x.0) xs ≡ (runs_behind x xs).0
  unfolding runs_behind
  values_of_run x [] h = refl
  values_of_run x (y ∷ ys) ((ge, behind), rest) = elim (Bool-cases (less_pair ent x y)) [
    | inl lt ↦ rw lt (values_of_smaller (x.0) y ys lt rest)
    | inr le ↦
        let same : x.0 ≡ y.0 = comp_total (x.0) (y.0) le ge in
        rw (le, ge)
          (subst (λ k. y.1 ∷ values_of k ys ≡ y.1 ∷ (runs_behind y ys).0) (sym same)
            (ap (λ vs. y.1 ∷ vs) (values_of_run y ys rest)))
  ]

module _ {ℓ κ μ ι} {E : Type ℓ} {K : Type κ} {V : Type μ} {W : Type ι} (ent : Entry E K V)
    (reduce : List W → V) where
  open ent use {get_key, to_entry, get_key-to_entry, comp, comp_total}

  abbrev pub reduce_runs : List (K × List W) → List E
  reduce_runs [] = []
  reduce_runs (run ∷ rest) = to_entry (run.0) (reduce (run.1)) ∷ reduce_runs rest

  -- No entry for no values.
  abbrev pub reduced : K → List W → Option E
  reduced q [] = none
  reduced q (v ∷ vs) = some (to_entry q (reduce (v ∷ vs)))

  abbrev later : K × W → List (K × W) → List E
  later x xs = reduce_runs ((runs_behind ent x xs).1)

  abbrev first : K × W → List (K × W) → E
  first x xs = to_entry (x.0) (reduce (x.1 ∷ (runs_behind ent x xs).0))

  later-Above :
      (x : K × W) (xs : List (K × W))
      → IsOrdered (less_pair ent) (x ∷ xs)
      → Above ent (x.0) (later x xs) × IsSorted ent (later x xs)
  unfolding runs_behind
  later-Above x [] h = (tt, tt)
  later-Above x (y ∷ ys) ((ge, _), rest) =
      let (above, in_order) = later-Above y ys rest in
      elim (Bool-cases (less_pair ent x y)) [
        | inl lt ↦
            let key = get_key-to_entry (y.0) (reduce (y.1 ∷ (runs_behind ent y ys).0)) in
            rw lt (
              (rw key lt, Above-trans ent (x.0) (y.0) (later y ys) lt above),
              (rw key above, in_order),
            )
        | inr le ↦
            rw le
              (subst (λ k. Above ent k (later y ys)) (comp_total (y.0) (x.0) ge le) above, in_order)
      ]

  lookup_runs :
      (q : K) (x : K × W) (xs : List (K × W))
      → IsOrdered (less_pair ent) (x ∷ xs)
      → (comp (x.0) q ≡ true → lookup ent q (later x xs) ≡ reduced q (values_of ent q xs))
      → lookup ent q (first x xs ∷ later x xs) ≡ reduced q (values_of ent q (x ∷ xs))
  lookup_runs q x xs h deeper =
      let key = get_key-to_entry (x.0) (reduce (x.1 ∷ (runs_behind ent x xs).0)) in
      elim (Bool-cases (comp q (x.0))) [
        | inl lt ↦
            let above = Above-trans ent q (x.0) (later x xs) lt ((later-Above x xs h).0) in
            let nothing : values_of ent q xs ≡ [] = values_of_smaller ent q x xs lt h in
            rw (key, lt, nothing) (lookup-Above ent q (later x xs) above)
        | inr ge ↦ elim (Bool-cases (comp (x.0) q)) [
          | inl gt ↦ rw (key, ge, gt) (deeper gt)
          | inr le ↦
              let same : x.0 ≡ q = comp_total (x.0) q le ge in
              rw (key, ge, le)
                (subst
                  (λ k. some (first x xs) ≡ some (to_entry k (reduce (x.1 ∷ values_of ent k xs))))
                  same
                  (ap (λ vs. some (to_entry (x.0) (reduce (x.1 ∷ vs))))
                    (sym (values_of_run ent x xs h))))
        ]
      ]

  lookup-later :
      (q : K) (x : K × W) (xs : List (K × W))
      → IsOrdered (less_pair ent) (x ∷ xs)
      → comp (x.0) q ≡ true
      → lookup ent q (later x xs) ≡ reduced q (values_of ent q xs)
  unfolding runs_behind
  lookup-later q x [] h gt = refl
  lookup-later q x (y ∷ ys) ((ge, behind), rest) gt = elim (Bool-cases (less_pair ent x y)) [
    | inl lt ↦ rw lt (lookup_runs q y ys rest (lookup-later q y ys rest))
    | inr le ↦
        let gt' : comp (y.0) q ≡ true =
          subst (λ k. comp k q ≡ true) (comp_total (x.0) (y.0) le ge) gt in
        rw (le, comp_asym ent (y.0) q gt', gt') (lookup-later q y ys rest gt')
  ]

  -- An array in the order of its keys, in which a key finds what its values in `xs` are reduced to, in
  -- their order, and nothing where it has none.
  pub record IsReduced (xs : List (K × W)) (ys : List E) : Type (ℓ ⊔ κ) where
    pub in_order : IsSorted ent ys
    pub finds_reduced : (q : K) → lookup ent q ys ≡ reduced q (values_of ent q xs)

  pub reduce_runs-IsReduced :
      (xs : List (K × W)) → IsOrdered (less_pair ent) xs → IsReduced xs (reduce_runs (runs ent xs))
  unfolding runs
  reduce_runs-IsReduced [] h = record { in_order = tt; finds_reduced = λ q. refl }
  reduce_runs-IsReduced (x ∷ xs) h =
      let key = get_key-to_entry (x.0) (reduce (x.1 ∷ (runs_behind ent x xs).0)) in
      let (above, in_order) = later-Above x xs h in
      record {
        in_order = (rw key above, in_order);
        finds_reduced = λ q. lookup_runs q x xs h (lookup-later q x xs h);
      }
