-- ===== src/Build.antt =====
-- include/cpam/build.h: from an unsorted array to an array in the order of its keys. `sort` is parlay's
-- sample_sort or quicksort with the comparison `less`, which is not in this repository: it returns a
-- permutation in which no element is less than one before it.
pub mod Reduced
pub mod Runs
use cpam.Base.{◌≡◌, Bool, true, false, Option, none, some, List, [], ◌∷◌, if◌then◌else◌, All}
use mathlib.Core.List.{Permᴰ}
use cpam.Entry.{Entry}

abbrev pub IsOrdered {ℓ} : {E : Type ℓ} → (E → E → Bool) → List E → Type 0
IsOrdered less [] = Unit
IsOrdered less (x ∷ xs) = All (λ y. less y x ≡ false) xs × IsOrdered less xs

pub record IsSorting {ℓ} {E : Type ℓ} (less : E → E → Bool) (sort : List E → List E) : Type ℓ where
  pub permuted : (xs : List E) → Permᴰ (sort xs) xs
  pub ordered : (xs : List E) → IsOrdered less (sort xs)

module _ {ℓ κ μ} {E : Type ℓ} {K : Type κ} {V : Type μ} (ent : Entry E K V) where
  open ent use {get_key, get_val, set_val, comp}

  abbrev pub less : E → E → Bool
  less a b = comp (get_key a) (get_key b)

  -- `pack` by the flags: the elements that the one before them, `last`, is less than.
  unfoldable pub pack_behind : E → List E → List E
  pack_behind last [] = []
  pack_behind last (x ∷ xs) = let rest = pack_behind x xs in if less last x then x ∷ rest else rest

  unfoldable pub pack : List E → List E
  pack [] = []
  pack (x ∷ xs) = x ∷ pack_behind x xs

  unfoldable pub sort_remove_duplicates : (List E → List E) → List E → List E
  sort_remove_duplicates sort [] = []
  sort_remove_duplicates sort (x ∷ xs) = pack (sort (x ∷ xs))
