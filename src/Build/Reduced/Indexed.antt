-- ===== src/Build/Reduced/Indexed.antt =====
-- Where 32 bits hold all positions the runs between the packed positions are the runs of one key.
use cpam.Base.{
  ℕ, suc, ◌+◌, ◌-◌, ◌%◌, ◌≤◌, ◌≡◌, refl, sym, ap, ◌∙◌, true, some, List, [], ◌∷◌, ◌++◌, leb, length,
  take, drop, get_elem?, u32_mod, length-append, append-nil, append_assoc, arith, Bool-cases, inl,
  inr,
}
use native.Mathlib.Nat.{mod-eq_of_lt}
use mathlib.Core.List.{Permᴰ}
use cpam.Build.{IsSorting}
use cpam.Build.Reduced.{
  values, cut_values, less_pair, starts_from, starts, reduce_run, reduce_all,
  sort_reduce_duplicates,
}
use cpam.Build.Reduced.Groups.{runs_behind, runs, reduce_runs, IsReduced, reduce_runs-IsReduced}
use cpam.Entry.{Entry}

module _ {κ ι} {K : Type κ} {W : Type ι} where
  length-Permᴰ : {xs ys : List (K × W)} → Permᴰ xs ys → length xs ≡ length ys
  length-Permᴰ Permᴰ.nil = refl
  length-Permᴰ (Permᴰ.cons e d) = ap suc (length-Permᴰ d)
  length-Permᴰ (Permᴰ.swap e e') = refl
  length-Permᴰ (Permᴰ.trans d d') = length-Permᴰ d ∙ length-Permᴰ d'

  get_elem-past :
      (pre ys : List (K × W)) (x : K × W) → get_elem? (pre ++ x ∷ ys) (length pre) ≡ some x
  get_elem-past [] ys x = refl
  get_elem-past (y ∷ pre) ys x = get_elem-past pre ys x

  drop-length : (pre ys : List (K × W)) → drop (length pre) (pre ++ ys) ≡ ys
  drop-length [] ys = refl
  drop-length (y ∷ pre) ys = drop-length pre ys

  take-length : (mid ys : List (K × W)) → take (length mid) (mid ++ ys) ≡ mid
  take-length [] ys = refl
  take-length (x ∷ mid) ys = ap (λ r. x ∷ r) (take-length mid ys)

  values-append : (xs ys : List (K × W)) → values (xs ++ ys) ≡ values xs ++ values ys
  values-append [] ys = refl
  values-append (x ∷ xs) ys = ap (λ r. x.1 ∷ r) (values-append xs ys)

  cut_values-middle :
      (pre mid ys : List (K × W)) (to : ℕ)
      → to ≡ length pre + length mid
      → cut_values (pre ++ (mid ++ ys)) (length pre) to ≡ some (values mid)
  unfolding cut_values
  cut_values-middle pre mid ys to same =
      let bound : leb to (length (pre ++ (mid ++ ys))) ≡ true =
        ground (arith, length-append pre (mid ++ ys), length-append mid ys) in
      let ordered : leb (length pre) to ≡ true = ground arith in
      let size : to - length pre ≡ length mid = omega arith in
      rw (ordered, bound, drop-length pre (mid ++ ys), size, take-length mid ys) refl

module _ {ℓ κ μ ι} {E : Type ℓ} {K : Type κ} {V : Type μ} {W : Type ι} (ent : Entry E K V)
    (reduce : List W → V) where
  open ent use {to_entry}

  reduce_run-middle :
      (pre : List (K × W)) (x : K × W) (mid ys : List (K × W)) (to : ℕ)
      → to ≡ length pre + suc (length mid)
      → reduce_run ent reduce
          (get_elem? (pre ++ ((x ∷ mid) ++ ys)) (length pre))
          (cut_values (pre ++ ((x ∷ mid) ++ ys)) (length pre) to)
        ≡ some (to_entry (x.0) (reduce (x.1 ∷ values mid)))
  reduce_run-middle pre x mid ys to at =
      rw (get_elem-past pre (mid ++ ys) x, cut_values-middle pre (x ∷ mid) ys to (omega arith)) refl

  -- The run from x on, when `mid` of its pairs are passed and `last` is the last of them.
  reduce_all-runs :
      (pre : List (K × W)) (x : K × W) (mid : List (K × W)) (last : K × W) (xs : List (K × W))
      (i : ℕ)
      → i ≡ length pre + suc (length mid)
      → i + length xs ≤ u32_mod
      → reduce_all ent reduce (pre ++ ((x ∷ mid) ++ xs)) (length pre ∷ starts_from ent i last xs)
        ≡ some (
            to_entry (x.0) (reduce (x.1 ∷ (values mid ++ (runs_behind ent last xs).0)))
            ∷ reduce_runs ent reduce ((runs_behind ent last xs).1))
  unfolding starts_from runs_behind
  reduce_all-runs pre x mid last [] i at small =
      let to = length (pre ++ ((x ∷ mid) ++ [])) in
      let size : to ≡ length pre + suc (length mid) =
        omega (arith, length-append pre ((x ∷ mid) ++ []), length-append mid []) in
      rw (reduce_run-middle pre x mid [] to size, append-nil (values mid)) refl
  reduce_all-runs pre x mid last (y ∷ ys) i at small = elim (Bool-cases (less_pair ent last y)) [
    | inl lt ↦
        let is = starts_from ent (suc i) y ys in
        let size : length (pre ++ (x ∷ mid)) ≡ i = omega (arith, length-append pre (x ∷ mid)) in
        let in_range : i % u32_mod ≡ i = mod-eq_of_lt (omega arith) in
        let deeper =
          ap (λ b. reduce_all ent reduce b (i ∷ is)) (sym (append_assoc pre (x ∷ mid) (y ∷ ys)))
          ∙ ap (λ n. reduce_all ent reduce ((pre ++ (x ∷ mid)) ++ (y ∷ ys)) (n ∷ is)) (sym size)
          ∙ reduce_all-runs (pre ++ (x ∷ mid)) y [] y ys (suc i) (omega arith) (omega arith) in
        rw
          (lt, in_range, reduce_run-middle pre x mid (y ∷ ys) i at, append-nil (values mid), deeper)
          refl
    | inr le ↦
        let is = starts_from ent (suc i) y ys in
        let rest = (runs_behind ent y ys).0 in
        let behind = reduce_runs ent reduce ((runs_behind ent y ys).1) in
        rw le (
          ap (λ r. reduce_all ent reduce (pre ++ (x ∷ r)) (length pre ∷ is))
            (sym (append_assoc mid (y ∷ []) ys))
          ∙ reduce_all-runs pre x (mid ++ (y ∷ [])) y ys (suc i)
              (omega (arith, length-append mid (y ∷ []))) (omega arith)
          ∙ ap (λ vs. some (to_entry (x.0) (reduce (x.1 ∷ vs)) ∷ behind))
              (rw (values-append mid (y ∷ [])) (append_assoc (values mid) (y.1 ∷ []) rest)))
  ]

  reduce_all-starts :
      (zs : List (K × W))
      → length zs ≤ u32_mod
      → reduce_all ent reduce zs (starts ent zs) ≡ some (reduce_runs ent reduce (runs ent zs))
  unfolding runs
  reduce_all-starts [] small = refl
  reduce_all-starts (x ∷ xs) small = reduce_all-runs [] x [] x xs 1 (omega arith) (omega arith)

  -- An empty array is left empty.
  sorted_empty : (zs : List (K × W)) → length zs ≡ 0 → IsReduced ent reduce zs []
  sorted_empty [] none_there = record { in_order = tt; finds_reduced = λ q. refl }
  sorted_empty (z ∷ zs) none_there = absurd (omega arith)

  -- `sort_reduce_duplicates` reads inside the array and reduces the values of each key.
  pub sort_reduce_duplicates-IsReduced :
      (sort : List (K × W) → List (K × W)) (a : List (K × W))
      → IsSorting (less_pair ent) sort
      → length a ≤ u32_mod
      → (ys : List E) × (sort_reduce_duplicates ent reduce sort a ≡ some ys)
        × IsReduced ent reduce (sort a) ys
  unfolding sort_reduce_duplicates
  sort_reduce_duplicates-IsReduced sort [] laws small =
      ([], refl, sorted_empty (sort []) (length-Permᴰ (laws.permuted [])))
  sort_reduce_duplicates-IsReduced sort (x ∷ xs) laws small =
      let zs = sort (x ∷ xs) in
      let same : length zs ≡ length (x ∷ xs) = length-Permᴰ (laws.permuted (x ∷ xs)) in
      (
        reduce_runs ent reduce (runs ent zs),
        reduce_all-starts zs (omega arith),
        reduce_runs-IsReduced ent reduce zs (laws.ordered (x ∷ xs)),
      )
