-- ===== src/Examples/Maps.antt =====
-- The theorems on maps at concrete maps.
use cpam.Base.{
  ℕ, true, false, All, take, drop, not, if-split, ◌+◌, ◌≡◌, refl, [], ◌∷◌, Option, none, some,
  arith,
}
use cpam.Node.{Node}
use cpam.Node.Iterate.{entries}
use cpam.Entry.{pair_entry}
use cpam.Entry.Sorted.{lookup}
use cpam.Entry.Refines.{Refines}
use cpam.Entry.Sides.{zipped}
use cpam.Map.Search.{find, rank}
use cpam.Map.Search.Found.{find-eq_lookup, rank-eq_count_below}
use cpam.Map.Split.{split}
use cpam.Map.Split.Halves.{IsSplit, split-IsSplit}
use cpam.Map.Insert.{insert, combine_values}
use cpam.Map.Insert.Inserted.{updated, insert-Refines}
use cpam.Map.Remove.{deletet}
use cpam.Map.Remove.Removed.{deletet-Refines}
use cpam.Map.Union.{uniont, union_bc}
use cpam.Map.Union.Merged.{combined, merged_entry}
use cpam.Map.Union.United.{uniont-Refines, union_bc-Refines}
use cpam.Map.Intersect.{intersect, intersect_bc}
use cpam.Map.Intersect.Common.{intersect-Refines, intersect_bc-Refines}
use cpam.Map.Intersect.Merged.{common}
use cpam.Map.Range.{range_2}
use cpam.Map.Range.Within.{restricted, between, range_2-Refines}
use cpam.Map.MultiInsert.{multi_insert_sorted}
use cpam.Map.MultiInsert.Merged.{inserted_over, multi_insert_sorted-Refines}
use cpam.Map.MultiDelete.{multi_delete_sorted}
use cpam.Map.MultiDelete.Removed.{key_in, multi_delete_sorted-Refines}
use cpam.Map.Difference.{difference}
use cpam.Map.Difference.Removed.{without, difference-Refines}
use cpam.Search.{linear_search}
use cpam.Map.MultiFind.{multi_find_sorted}
use cpam.Map.MultiFind.Found.{IsSearch, multi_find_sorted-eq_answers}
use cpam.Examples.{
  Pair, blocks, block, plain, blocks-IsSized, blocks-IsSorted, blocks-Refines, block-Refines, wide,
  wide-Refines, plain-Refines,
}

abbrev in_blocks : ℕ → Option Pair
in_blocks q = lookup pair_entry q (entries blocks)

abbrev in_wide : ℕ → Option Pair
in_wide q = lookup pair_entry q (entries wide)

abbrev in_block : ℕ → Option Pair
in_block q = lookup pair_entry q (entries block)

abbrev in_plain : ℕ → Option Pair
in_plain q = lookup pair_entry q (entries plain)

find_example : find pair_entry blocks 6 ≡ some (6, 60)
find_example = find-eq_lookup pair_entry blocks 6 blocks-IsSorted

rank_example : rank pair_entry blocks 5 0 ≡ 3
rank_example =
    rank-eq_count_below pair_entry blocks 5 0 blocks-IsSized blocks-IsSorted (omega arith)

split_example : IsSplit pair_entry in_blocks 4 (split pair_entry 2 blocks 4)
split_example = split-IsSplit pair_entry 2 (omega arith) blocks 4 blocks-Refines

insert_example :
    Refines pair_entry
      (updated pair_entry in_plain 3 (some (3, 35)))
      (insert pair_entry 2 plain (3, 5) ◌+◌)
unfolding combine_values
insert_example =
    insert-Refines pair_entry 2 (omega arith) plain (3, 5) ◌+◌ ((tt, tt), tt) plain-Refines

deletet_example :
    Refines pair_entry (updated pair_entry in_blocks 6 none) (deletet pair_entry 2 blocks 6)
deletet_example = deletet-Refines pair_entry 2 (omega arith) blocks 6 blocks-Refines

uniont_example :
    Refines pair_entry
      (zipped pair_entry (combined pair_entry (merged_entry pair_entry ◌+◌)) in_wide in_block)
      (uniont pair_entry 1 wide block ◌+◌)
uniont_example =
    uniont-Refines pair_entry 1 (omega arith) wide block ◌+◌ (λ a b. omega arith) wide-Refines
      block-Refines

union_bc_example :
    (t : Node Pair) × (union_bc pair_entry 2 blocks block (λ a b. a) ≡ some t)
    × Refines pair_entry
        (zipped pair_entry
          (combined pair_entry (merged_entry pair_entry (λ a b. a)))
          in_blocks
          in_block)
        t
union_bc_example =
    union_bc-Refines pair_entry 2 (omega arith) blocks block (λ a b. a) blocks-Refines block-Refines
      (omega arith)

intersect_example :
    Refines pair_entry
      (zipped pair_entry (common pair_entry (merged_entry pair_entry ◌+◌)) in_wide in_block)
      (intersect pair_entry 1 wide block ◌+◌)
intersect_example =
    intersect-Refines pair_entry 1 (omega arith) wide block ◌+◌ (λ a b. omega arith) wide-Refines
      block-Refines

intersect_bc_example :
    (t : Node Pair) × (intersect_bc pair_entry 2 blocks block (λ a b. a) ≡ some t)
    × Refines pair_entry
        (zipped pair_entry
          (common pair_entry (merged_entry pair_entry (λ a b. a)))
          in_blocks
          in_block)
        t
intersect_bc_example =
    intersect_bc-Refines pair_entry 2 (omega arith) blocks block (λ a b. a) blocks-Refines
      block-Refines (omega arith)

difference_example :
    Refines pair_entry
      (zipped pair_entry without in_wide in_block)
      (difference pair_entry 1 wide block)
difference_example =
    difference-Refines pair_entry 1 (omega arith) wide block wide-Refines block-Refines

range_2_example :
    Refines pair_entry
      (restricted pair_entry (between pair_entry 2 6) in_blocks)
      (range_2 pair_entry 2 blocks 2 6)
range_2_example =
    range_2-Refines pair_entry 2 (omega arith) (λ a b. ground arith) blocks 2 6 blocks-Refines

multi_insert_sorted_example :
    Refines pair_entry
      (zipped pair_entry
        (combined pair_entry (inserted_over pair_entry (λ a b. b)))
        in_wide
        (λ q. lookup pair_entry q ((2, 5) ∷ (3, 6) ∷ (11, 7) ∷ [])))
      (multi_insert_sorted pair_entry 1 8 wide ((2, 5) ∷ (3, 6) ∷ (11, 7) ∷ []) (λ a b. b))
multi_insert_sorted_example =
    multi_insert_sorted-Refines pair_entry 1 8 (omega arith) wide ((2, 5) ∷ (3, 6) ∷ (11, 7) ∷ [])
      (λ a b. b) wide-Refines ((refl, (refl, tt)), ((refl, tt), (tt, tt)))

multi_delete_sorted_example :
    Refines pair_entry
      (zipped pair_entry without in_wide (key_in pair_entry (2 ∷ 5 ∷ [])))
      (multi_delete_sorted pair_entry 1 8 wide (2 ∷ 5 ∷ []))
multi_delete_sorted_example =
    multi_delete_sorted-Refines pair_entry 1 8 (omega arith) wide (2 ∷ 5 ∷ []) wide-Refines
      ((refl, tt), (tt, tt))

-- A search from the front, for the parameter of the search in arrays.
linear_search-IsSearch : IsSearch {K = ℕ} linear_search
unfolding linear_search
linear_search-IsSearch less [] h = (tt, tt)
linear_search-IsSearch less (k ∷ ks) (stop, h) =
    let P = λ (n : ℕ).
      All (λ k. less k ≡ true) (take n (k ∷ ks)) × All (λ k. less k ≡ false) (drop n (k ∷ ks)) in
    if-split P (not (less k))
      (λ stops. let ge : less k ≡ false = ground arith in (tt, (ge, stop ge)))
      λ passes.
        let lt : less k ≡ true = ground arith in
        let (front, back) = linear_search-IsSearch less ks h in ((lt, front), back)

multi_find_sorted_example :
    multi_find_sorted pair_entry linear_search blocks (2 ∷ 3 ∷ 4 ∷ 7 ∷ [])
    ≡ some 20 ∷ none ∷ some 40 ∷ some 70 ∷ []
multi_find_sorted_example =
    multi_find_sorted-eq_answers pair_entry linear_search blocks (2 ∷ 3 ∷ 4 ∷ 7 ∷ [])
      linear_search-IsSearch blocks-IsSorted
      ((refl, (refl, (refl, tt))), ((refl, (refl, tt)), ((refl, tt), (tt, tt))))
