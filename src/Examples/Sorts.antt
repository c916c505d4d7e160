-- ===== src/Examples/Sorts.antt =====
-- A sort, and the theorems on maps that are built with it.
use cpam.Base.{
  ◌≡◌, refl, false, List, [], ◌∷◌, if◌then◌else◌, ltb, All, arith, Bool-cases, inl, inr, ◌⊎◌,
  length, none, some,
}
use mathlib.Core.List.{Permᴰ, Memᴰ}
use mathlib.Core.List.Permᴰ
use cpam.Entry.{pair_entry}
use cpam.Entry.Sorted.{All-imp}
use cpam.Build.{IsOrdered, IsSorting, less}
use cpam.Node.{Node}
use cpam.Entry.Refines.{Refines}
use cpam.Map.Union.Merged.{combined}
use cpam.Map.MultiInsert.Merged.{inserted_over}
use cpam.PublicMap.Grouped.{multi_insert_reduce-Refines}
use cpam.Build.Reduced.Groups.{reduced, values_of}
use cpam.Map.Search.{matches}
use cpam.PublicMap.{get_right, multi_insert_reduce, find, multi_insert, from_range}
use cpam.PublicMap.Composed.{IsInserted, multi_insert-IsInserted, find-from_range}
use cpam.Entry.Sorted.{lookup}
use cpam.Node.Iterate.{entries}
use cpam.Examples.{Pair, blocks, blocks-Refines}

abbrev put : Pair → List Pair → List Pair
put x [] = x ∷ []
put x (y ∷ ys) = let rest = put x ys in if ltb (y.0) (x.0) then y ∷ rest else x ∷ y ∷ ys

abbrev sorted : List Pair → List Pair
sorted [] = []
sorted (x ∷ xs) = put x (sorted xs)

put-All : (P : Pair → Type 0) (x : Pair) (ys : List Pair) → P x → All P ys → All P (put x ys)
put-All P x [] p a = (p, tt)
put-All P x (y ∷ ys) p (q, a) = elim (Bool-cases (ltb (y.0) (x.0))) [
  | inl lt ↦ rw lt (q, put-All P x ys p a)
  | inr ge ↦ rw ge (p, (q, a))
]

put-IsOrdered :
    (x : Pair) (ys : List Pair)
    → IsOrdered (less pair_entry) ys
    → IsOrdered (less pair_entry) (put x ys)
put-IsOrdered x [] h = (tt, tt)
put-IsOrdered x (y ∷ ys) (above, h) = elim (Bool-cases (ltb (y.0) (x.0))) [
  | inl lt ↦
      rw lt (put-All (λ z. ltb (z.0) (y.0) ≡ false) x ys (ground arith) above, put-IsOrdered x ys h)
  | inr ge ↦ rw ge ((ge, All-imp ys (λ z p. ground arith) above), (above, h))
]

put-Permᴰ : (x : Pair) (ys : List Pair) → Permᴰ (put x ys) (x ∷ ys)
put-Permᴰ x [] = Permᴰ.refl (x ∷ [])
put-Permᴰ x (y ∷ ys) = elim (Bool-cases (ltb (y.0) (x.0))) [
  | inl lt ↦ rw lt (Permᴰ.trans (Permᴰ.cons refl (put-Permᴰ x ys)) (Permᴰ.swap refl refl))
  | inr ge ↦ rw ge (Permᴰ.refl (x ∷ y ∷ ys))
]

sorted-IsOrdered : (xs : List Pair) → IsOrdered (less pair_entry) (sorted xs)
sorted-IsOrdered [] = tt
sorted-IsOrdered (x ∷ xs) = put-IsOrdered x (sorted xs) (sorted-IsOrdered xs)

sorted-Permᴰ : (xs : List Pair) → Permᴰ (sorted xs) xs
sorted-Permᴰ [] = Permᴰ.nil
sorted-Permᴰ (x ∷ xs) = Permᴰ.trans (put-Permᴰ x (sorted xs)) (Permᴰ.cons refl (sorted-Permᴰ xs))

sorted-IsSorting : IsSorting (less pair_entry) sorted
sorted-IsSorting = record { permuted = sorted-Permᴰ; ordered = sorted-IsOrdered }

-- Three keys, one of them twice.
abbrev unsorted : List Pair
unsorted = (5, 1) ∷ (2, 2) ∷ (5, 3) ∷ (4, 4) ∷ []

multi_insert_example :
    IsInserted pair_entry 2
      (λ q. lookup pair_entry q (entries blocks))
      unsorted
      (multi_insert pair_entry 2 1 sorted blocks unsorted)
multi_insert_example =
    multi_insert-IsInserted pair_entry 2 1 sorted (omega arith) sorted-IsSorting blocks unsorted
      blocks-Refines

find-from_range_example :
    ((find pair_entry (from_range pair_entry 2 1 sorted unsorted) 5 ≡ none)
      × All (λ e. matches pair_entry 5 e ≡ false) unsorted)
    ⊎ ((e : Pair) × (find pair_entry (from_range pair_entry 2 1 sorted unsorted) 5 ≡ some (e.1))
        × Memᴰ e unsorted
        × (e.0 ≡ 5))
find-from_range_example =
    find-from_range pair_entry 2 1 sorted (omega arith) sorted-IsSorting unsorted 5

-- Each key gets the number of its values.
multi_insert_reduce_example :
    (t : Node Pair) × (multi_insert_reduce pair_entry 2 1 sorted blocks unsorted length ≡ some t)
    × Refines pair_entry
        (λ q.
          combined pair_entry
            (inserted_over pair_entry get_right)
            (lookup pair_entry q (entries blocks))
            (reduced pair_entry length q (values_of pair_entry q (sorted unsorted))))
        t
multi_insert_reduce_example =
    multi_insert_reduce-Refines pair_entry 2 1 (omega arith) blocks sorted length unsorted
      blocks-Refines sorted-IsSorting (omega arith)
