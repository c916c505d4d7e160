-- ===== src/Examples.antt =====
-- Small trees with blocks of B = 2 to 4 entries, and what they hold.
pub mod Codes
pub mod Maps
pub mod Memory
pub mod Sorts
pub mod Sums
pub mod Trees
use cpam.Base.{ℕ, ◌<◌, ◌≡◌, refl, List, [], ◌∷◌, Option, arith, u32_mod}
use cpam.Node.{Node, empty, regular, compressed}
use cpam.Node.Iterate.{entries}
use cpam.Node.Contents.{IsSized, Holds, Holds-self}
use cpam.Entry.{pair_entry}
use cpam.Entry.Sorted.{IsSorted, lookup}
use cpam.Entry.Refines.{Refines, Refines-self}

abbrev pub Pair : Type 0
Pair = ℕ × ℕ

-- Two blocks below a root.
abbrev pub blocks : Node Pair
blocks =
    regular 5 (compressed ((1, 10) ∷ (2, 20) ∷ [])) (4, 40) (compressed ((6, 60) ∷ (7, 70) ∷ []))

abbrev pub block : Node Pair
block = compressed ((2, 5) ∷ (3, 6) ∷ (6, 7) ∷ [])

abbrev pub later : Node Pair
later = compressed ((9, 90) ∷ (10, 100) ∷ [])

-- With `block` more entries than a base case of blocks of one entry has.
abbrev pub wide : Node Pair
wide = regular 8 blocks (8, 80) later

-- A tree without blocks.
abbrev pub plain : Node Pair
plain = regular 2 (regular 1 empty (1, 10) empty) (3, 30) empty

pub blocks-IsSized : IsSized blocks
blocks-IsSized = (tt, tt, refl)

pub plain-IsSized : IsSized plain
plain-IsSized = ((tt, tt, refl), tt, refl)

pub blocks-IsSorted : IsSorted pair_entry (entries blocks)
blocks-IsSorted = (
  (refl, (refl, (refl, (refl, tt)))),
  ((refl, (refl, (refl, tt))), ((refl, (refl, tt)), ((refl, tt), (tt, tt)))),
)

pub block-IsSorted : IsSorted pair_entry (entries block)
block-IsSorted = ((refl, (refl, tt)), ((refl, tt), (tt, tt)))

pub blocks-Refines : Refines pair_entry (λ q. lookup pair_entry q (entries blocks)) blocks
blocks-Refines = Refines-self pair_entry blocks blocks-IsSized blocks-IsSorted

pub block-Refines : Refines pair_entry (λ q. lookup pair_entry q (entries block)) block
block-Refines = Refines-self pair_entry block tt block-IsSorted

pub plain-Refines : Refines pair_entry (λ q. lookup pair_entry q (entries plain)) plain
plain-Refines = Refines-self pair_entry plain plain-IsSized ((refl, tt), (tt, tt))

pub blocks-Holds : Holds (entries blocks) blocks
blocks-Holds = Holds-self blocks blocks-IsSized

pub later-Holds : Holds (entries later) later
later-Holds = Holds-self later tt

pub wide-Refines : Refines pair_entry (λ q. lookup pair_entry q (entries wide)) wide
wide-Refines =
    Refines-self pair_entry wide (blocks-IsSized, tt, refl)
      (
        (refl, (refl, (refl, (refl, (refl, (refl, (refl, tt))))))),
        (
          (refl, (refl, (refl, (refl, (refl, (refl, tt)))))),
          (
            (refl, (refl, (refl, (refl, (refl, tt))))),
            (
              (refl, (refl, (refl, (refl, tt)))),
              ((refl, (refl, (refl, tt))), ((refl, (refl, tt)), ((refl, tt), (tt, tt)))),
            ),
          ),
        ),
      )
