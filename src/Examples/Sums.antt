-- ===== src/Examples/Sums.antt =====
-- The theorems on augmented trees at a small tree.
use cpam.Base.{ℕ, ◌+◌, ◌≡◌, refl, some, [], ◌∷◌, max, ltb, arith}
use cpam.Aug.{AugNode, empty, regular, compressed, Aug, update, make_single_compressed_node}
use cpam.Aug.Cached.{IsMonoid, IsCached, built_block, built_empty, built_update, Built-IsCached}
use cpam.Aug.Sums.{aug_sum_left, aug_sum_range, aug_select}
use cpam.Aug.Sums.Left.{aug_sum_left-eq_sum_where}
use cpam.Aug.Sums.Ranges.{aug_sum_range-eq_sum_where}
use cpam.Aug.Sums.Select.{aug_select-eq_first_failing}
use cpam.Entry.{pair_entry}
use cpam.Examples.{Pair, blocks-IsSorted}

abbrev value_sum : Aug Pair ℕ
value_sum = record { get_empty = 0; from_entry = λ e. e.1; combine = λ a b. a + b }

abbrev value_max : Aug Pair ℕ
value_max = record { get_empty = 0; from_entry = λ e. e.1; combine = max }

value_sum-IsMonoid : IsMonoid value_sum
value_sum-IsMonoid = record {
  combine_assoc = λ a b c. omega arith;
  combine_left = λ a. omega arith;
  combine_right = λ a. omega arith;
}

value_max-IsMonoid : IsMonoid value_max
value_max-IsMonoid = record {
  combine_assoc = λ a b c. omega arith;
  combine_left = λ a. omega arith;
  combine_right = λ a. omega arith;
}

-- Two blocks below a root, with the sums of their values.
abbrev summed : AugNode Pair ℕ
summed =
    regular 5 (compressed 30 ((1, 10) ∷ (2, 20) ∷ [])) (4, 40) 200
      (compressed 130 ((6, 60) ∷ (7, 70) ∷ []))

summed-IsCached : IsCached value_sum summed
summed-IsCached = (refl, refl, refl)

-- The same with their greatest values.
abbrev topped : AugNode Pair ℕ
topped =
    regular 5 (compressed 20 ((1, 10) ∷ (2, 20) ∷ [])) (4, 40) 70
      (compressed 70 ((6, 60) ∷ (7, 70) ∷ []))

Built-IsCached_example :
    IsCached value_sum (
      update value_sum (make_single_compressed_node value_sum (1, 10) ((2, 20) ∷ [])) (4, 40) empty)
Built-IsCached_example =
    Built-IsCached value_sum value_sum-IsMonoid
      (built_update _ (4, 40) _ (built_block (1, 10) ((2, 20) ∷ [])) built_empty)

-- The entry of key 6 stands in a block and is left out.
aug_sum_left_example : aug_sum_left pair_entry value_sum summed 6 0 ≡ 70
aug_sum_left_example =
    aug_sum_left-eq_sum_where pair_entry value_sum value_sum-IsMonoid (λ a b. omega arith) summed 6
      0 summed-IsCached blocks-IsSorted

aug_sum_range_example : aug_sum_range pair_entry value_sum summed 4 8 0 ≡ 170
aug_sum_range_example =
    aug_sum_range-eq_sum_where pair_entry value_sum value_sum-IsMonoid (λ a b. omega arith) summed 4
      8 0 summed-IsCached blocks-IsSorted ((refl, (refl, tt)), (refl, (refl, tt)))
      ((refl, (refl, tt)), (refl, (refl, tt)))

aug_select_example : aug_select value_max topped (λ a. ltb a 50) ≡ some (6, 60)
aug_select_example =
    aug_select-eq_first_failing value_max value_max-IsMonoid (λ a. ltb a 50) refl
      (λ a b. ground arith) topped (refl, refl, refl)
