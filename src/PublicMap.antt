-- ===== src/PublicMap.antt =====
-- include/cpam/map.h: map_, the class that users see. A map is its root, and a method that changes it returns
-- the new root. `sort` is the sort that include/cpam/build.h calls, `base` the base size of the binary
-- search.
pub mod Composed
pub mod Grouped
use cpam.Base.{ℕ, ◌==◌, Bool, true, false, ◌&&◌, not, Option, none, some, List}
use cpam.Node.{Node, empty, size}
use cpam.Node.Blocks.{finalize}
use cpam.Entry.{Entry}
use cpam.Build.{sort_remove_duplicates}
use cpam.Build.Reduced.{sort_reduce_duplicates}
use cpam.Map.Search.{find2}
use cpam.Map.Search
use cpam.Map.Insert
use cpam.Map.Remove.{deletet}
use cpam.Map.MultiInsert.{multi_insert_sorted}
use cpam.Map.Union.{uniont}
use cpam.Map.Intersect.{intersect}
use cpam.Map.Difference.{difference}

-- The lambdas `replace` and `get_right`.
abbrev pub get_right {μ} : {V : Type μ} → V → V → V
get_right a b = b

module _ {ℓ κ μ} {E : Type ℓ} {K : Type κ} {V : Type μ} (ent : Entry E K V) where
  open ent use {get_val}

  abbrev pub maybe_entry_to_val : Option E → Option V
  maybe_entry_to_val none = none
  maybe_entry_to_val (some e) = some (get_val e)

  unfoldable pub find : Node E → K → Option V
  find root key = maybe_entry_to_val (find2 ent root key)

  -- `find` with a default value, and `contains`.
  unfoldable pub find_or : Node E → K → V → V
  find_or root key defaultv = elim (Search.find ent root key) [
    | none ↦ defaultv
    | some et ↦ get_val et
  ]

  unfoldable pub contains : Node E → K → Bool
  contains root key = elim (Search.find ent root key) [ none ↦ false | some et ↦ true ]

module _ {ℓ κ μ} {E : Type ℓ} {K : Type κ} {V : Type μ} (ent : Entry E K V) (B : ℕ) where
  -- `insert` of an entry that replaces an old one.
  unfoldable pub insert : Node E → E → Node E
  insert root p = finalize B (Insert.insert ent B root p get_right)

  unfoldable pub remove : Node E → K → Node E
  remove root k = deletet ent B root k

  unfoldable pub map_union : Node E → Node E → Node E
  map_union a b = uniont ent B a b get_right

  unfoldable pub map_intersect : Node E → Node E → Node E
  map_intersect a b = intersect ent B a b get_right

  unfoldable pub map_difference : Node E → Node E → Node E
  map_difference a b = difference ent B a b

  -- operator ==
  unfoldable pub equal : Node E → Node E → Bool
  equal a b = (size a == size b) && (size a == size (map_union a b))

module _ {ℓ κ μ} {E : Type ℓ} {K : Type κ} {V : Type μ} (ent : Entry E K V) (B base : ℕ)
    (sort : List E → List E) where
  unfoldable pub multi_insert : Node E → List E → Node E
  multi_insert root ss =
      multi_insert_sorted ent B base root (sort_remove_duplicates ent sort ss) get_right

  -- The constructor from an array.
  unfoldable pub from_range : List E → Node E
  from_range s = finalize B (multi_insert empty s)

module _ {ℓ κ μ ι} {E : Type ℓ} {K : Type κ} {V : Type μ} {W : Type ι} (ent : Entry E K V)
    (B base : ℕ) (sort : List (K × W) → List (K × W)) where
  unfoldable pub multi_insert_reduce : Node E → List (K × W) → (List W → V) → Option (Node E)
  multi_insert_reduce root s g = elim (sort_reduce_duplicates ent g sort s) [
    | none ↦ none
    | some a ↦ some (multi_insert_sorted ent B base root a get_right)
  ]
