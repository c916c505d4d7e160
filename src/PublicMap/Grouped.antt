-- ===== src/PublicMap/Grouped.antt =====
-- The insertion of an unsorted array whose values of one key are reduced to one first.
use cpam.Base.{ℕ, ◌<◌, ◌≤◌, ◌≡◌, refl, ap, ◌∙◌, Option, some, List, length, u32_mod}
use cpam.Node.{Node}
use cpam.Entry.{Entry}
use cpam.Entry.Refines.{Refines}
use cpam.Build.{IsSorting}
use cpam.Build.Reduced.{less_pair}
use cpam.Build.Reduced.Groups.{reduced, values_of}
use cpam.Build.Reduced.Indexed.{sort_reduce_duplicates-IsReduced}
use cpam.Map.MultiInsert.{multi_insert_sorted}
use cpam.Map.MultiInsert.Merged.{multi_insert_sorted-Refines, inserted_over}
use cpam.Map.Union.Merged.{combined}
use cpam.PublicMap.{get_right, multi_insert_reduce}

module _ {ℓ κ μ ι} {E : Type ℓ} {K : Type κ} {V : Type μ} {W : Type ι} (ent : Entry E K V)
    (B base : ℕ) (pos : 0 < B) where
  -- For blocks of a positive size B, every base size of the binary search, a sort that returns an
  -- ordered permutation, a tree that refines m and an array of at most 2 ^ 32 pairs:
  -- `multi_insert_reduce` reads inside the array and returns a tree that refines m with, for each
  -- key of the array, what `g` makes of all its values in the order of the sorted array put in
  -- place of an old value.
  pub multi_insert_reduce-Refines :
      {m : K → Option E} (root : Node E) (sort : List (K × W) → List (K × W)) (g : List W → V)
      (a : List (K × W))
      → Refines ent m root
      → IsSorting (less_pair ent) sort
      → length a ≤ u32_mod
      → (t : Node E) × (multi_insert_reduce ent B base sort root a g ≡ some t)
        × Refines ent
            (λ q.
              combined ent
                (inserted_over ent get_right)
                (m q)
                (reduced ent g q (values_of ent q (sort a))))
            t
  unfolding multi_insert_reduce
  multi_insert_reduce-Refines {m = m} root sort g a h laws small =
      let (ys, returned, good) = sort_reduce_duplicates-IsReduced ent g sort a laws small in
      let inserted =
        multi_insert_sorted-Refines ent B base pos root ys get_right h (good.in_order) in
      (
        multi_insert_sorted ent B base root ys get_right,
        rw (multi_insert_reduce, returned) refl,
        record {
          sized = inserted.sized;
          sorted = inserted.sorted;
          reads = λ q.
              inserted.reads q
              ∙ ap (combined ent (inserted_over ent get_right) (m q)) (good.finds_reduced q);
        },
      )
