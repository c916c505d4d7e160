-- ===== src/Build/Reduced.antt =====
-- include/cpam/build.h: sort_reduce_duplicates. In the sorted array the positions where a key starts are packed,
-- as 32-bit numbers, and the values from each of them up to the next go to `reduce`.
pub mod Groups
pub mod Indexed
use cpam.Base.{
  ℕ, suc, ◌+◌, ◌-◌, ◌%◌, Bool, ◌&&◌, Option, none, some, List, [], ◌∷◌, if◌then◌else◌, leb, length,
  take, drop, get_elem?, u32_mod,
}
use cpam.Entry.{Entry}

-- The next start, or the end of the array.
abbrev pub run_end : ℕ → List ℕ → ℕ
run_end n [] = n
run_end n (i ∷ is) = i

abbrev pub prepend {ℓ} : {E : Type ℓ} → Option E → Option (List E) → Option (List E)
prepend none es = none
prepend (some e) none = none
prepend (some e) (some es) = some (e ∷ es)

module _ {κ ι} {K : Type κ} {W : Type ι} where
  abbrev pub values : List (K × W) → List W
  values [] = []
  values (x ∷ xs) = x.1 ∷ values xs

  -- `Vals.cut(start, end)`: none where it is not inside the array.
  unfoldable pub cut_values : List (K × W) → ℕ → ℕ → Option (List W)
  cut_values b from to =
      if leb from to && leb to (length b)
      then some (values (take (to - from) (drop from b)))
      else none

module _ {ℓ κ μ ι} {E : Type ℓ} {K : Type κ} {V : Type μ} {W : Type ι} (ent : Entry E K V) where
  open ent use {to_entry, comp}

  -- `lessE`.
  abbrev pub less_pair : K × W → K × W → Bool
  less_pair a b = comp (a.0) (b.0)

  -- `pack_index` of the flags Fl[i], Fl[i + 1], ..., where `last` is B[i - 1].
  unfoldable pub starts_from : ℕ → K × W → List (K × W) → List ℕ
  starts_from i last [] = []
  starts_from i last (x ∷ xs) =
      let rest = starts_from (suc i) x xs in if less_pair last x then i % u32_mod ∷ rest else rest

  abbrev pub starts : List (K × W) → List ℕ
  starts [] = []
  starts (x ∷ xs) = 0 ∷ starts_from 1 x xs

  abbrev pub reduce_run : (List W → V) → Option (K × W) → Option (List W) → Option E
  reduce_run reduce none vs = none
  reduce_run reduce (some x) none = none
  reduce_run reduce (some x) (some vs) = some (to_entry (x.0) (reduce vs))

  -- The last `tabulate`, over the starts: none where one of them reads outside of the array.
  abbrev pub reduce_all : (List W → V) → List (K × W) → List ℕ → Option (List E)
  reduce_all reduce b [] = some []
  reduce_all reduce b (i ∷ is) =
      prepend (reduce_run reduce (get_elem? b i) (cut_values b i (run_end (length b) is)))
        (reduce_all reduce b is)

  unfoldable pub sort_reduce_duplicates :
      (List W → V) → (List (K × W) → List (K × W)) → List (K × W) → Option (List E)
  sort_reduce_duplicates reduce sort [] = some []
  sort_reduce_duplicates reduce sort (x ∷ xs) =
      let b = sort (x ∷ xs) in reduce_all reduce b (starts b)
