-- ===== src/Examples/Trees.antt =====
-- The theorems on nodes and sequences at concrete trees.
use cpam.Base.{none, ℕ, ◌≡◌, List, [], ◌∷◌, ◌++◌, some, arith, ltb}
use cpam.Node.{Node, empty, regular, compressed}
use cpam.Node.Iterate.{entries}
use cpam.Node.Contents.{Holds}
use cpam.Node.Blocks.{make_compressed_array}
use cpam.Node.Compressed.{AllBlocks, make_compressed_array-AllBlocks}
use cpam.Balance.{node_join, regular_node_join}
use cpam.Balance.Join.{node_join-Holds}
use cpam.Seq.{from_array}
use cpam.Seq.Contents.{from_array-Holds}
use cpam.Seq.Rank.{select, take, suffix}
use cpam.Seq.Rank.Select.{select-eq_get_elem?}
use cpam.Seq.Rank.Take.{take-Holds, take_at_root, suffix-Holds, suffix_at_root}
use cpam.Base.{refl}
use cpam.Search.{linear_search, binary_search}
use cpam.Search.Agree.{binary_search-eq_linear_search}
use cpam.Balance.Balanced.{IsBalanced}
use cpam.Balance.Kept.{regular_node_join-IsBalanced}
use cpam.Seq.Scan.{foreach_index}
use cpam.Seq.Scan.Indexed.{write, foreach_index-read_from}
use cpam.Examples.{
  Pair, plain, plain-IsSized, blocks, later, blocks-IsSized, blocks-Holds, later-Holds,
}

-- Six numbers, and eleven.
abbrev six : List ℕ
six = 1 ∷ 2 ∷ 3 ∷ 4 ∷ 5 ∷ 6 ∷ []

abbrev eleven : List ℕ
eleven = 7 ∷ 8 ∷ 9 ∷ 10 ∷ 11 ∷ six

make_compressed_array-AllBlocks_example : AllBlocks 2 4 (make_compressed_array 2 eleven)
make_compressed_array-AllBlocks_example =
    make_compressed_array-AllBlocks 2 eleven (omega arith) (omega arith)

node_join_example :
    Holds (entries blocks ++ (8, 80) ∷ entries later) (node_join 2 blocks later (8, 80))
node_join_example = node_join-Holds 2 (omega arith) blocks later (8, 80) blocks-Holds later-Holds

from_array_example : Holds eleven (from_array 2 eleven)
from_array_example = from_array-Holds 2 (omega arith) eleven

select_example : select blocks 3 ≡ some (6, 60)
select_example = select-eq_get_elem? blocks 3 blocks-IsSized (omega arith)

take_example : Holds ((1, 10) ∷ (2, 20) ∷ (4, 40) ∷ []) (take 2 blocks 3)
take_example =
    take-Holds 2 (omega arith) blocks 3 blocks-IsSized (omega arith) (omega arith)
      ((λ same. absurd (omega arith)), (λ before. tt), (λ behind. tt))

take_at_root_example : entries (take 2 blocks 2) ≡ entries blocks
take_at_root_example =
    take_at_root 2 (omega arith) 5 (compressed ((1, 10) ∷ (2, 20) ∷ [])) (4, 40)
      (compressed ((6, 60) ∷ (7, 70) ∷ [])) blocks-IsSized (omega arith)

suffix_example : Holds ((7, 70) ∷ []) (suffix 2 blocks 4)
suffix_example =
    suffix-Holds 2 (omega arith) blocks 4 blocks-IsSized (omega arith)
      ((λ same. absurd (omega arith)), (λ before. tt), (λ behind. tt))

suffix_at_root_example : entries (suffix 2 blocks 3) ≡ (4, 40) ∷ (6, 60) ∷ (7, 70) ∷ []
suffix_at_root_example =
    suffix_at_root 2 (omega arith) 5 (compressed ((1, 10) ∷ (2, 20) ∷ [])) (4, 40)
      (compressed ((6, 60) ∷ (7, 70) ∷ [])) blocks-IsSized (omega arith)

binary_search_example : binary_search (λ n. ltb n 4) 1 six ≡ linear_search (λ n. ltb n 4) six
binary_search_example =
    binary_search-eq_linear_search (λ n. ltb n 4) 1 six
      (
        (λ h. absurd (ground arith)),
        (
          (λ h. absurd (ground arith)),
          (
            (λ h. absurd (ground arith)),
            ((λ h. (refl, (refl, tt))), ((λ h. (refl, tt)), ((λ h. tt), tt))),
          ),
        ),
      )

plain-IsBalanced : IsBalanced plain
plain-IsBalanced = (
  (tt, tt, record { left_light = omega arith; right_light = omega arith }),
  tt,
  record { left_light = omega arith; right_light = omega arith },
)

-- Five entries, too heavy for none.
abbrev five : Node Pair
five = regular 5 plain (8, 80) plain

regular_node_join-IsBalanced_example : IsBalanced (regular_node_join five empty (9, 90))
regular_node_join-IsBalanced_example =
    regular_node_join-IsBalanced five empty (9, 90) (plain-IsSized, plain-IsSized, refl) tt
      (
        plain-IsBalanced,
        plain-IsBalanced,
        record { left_light = omega arith; right_light = omega arith },
      )
      tt (omega arith)

foreach_index_example : foreach_index write blocks 2 (λ q. none) 5 ≡ some (6, 60)
foreach_index_example = foreach_index-read_from blocks 2 (λ q. none) 5 blocks-IsSized (omega arith)
