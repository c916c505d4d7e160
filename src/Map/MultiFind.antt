-- ===== src/Map/MultiFind.antt =====
-- include/cpam/map_ops.h: multi_find_sorted and its base case multifind_sorted_bc. What they write to
-- ret[offset] and on, one place for each key of A, is a list: none where nothing is written. `bisect` is
-- parlay's binary_search.
pub mod Answers
pub mod Found
use cpam.Base.{
  ℕ, ◌+◌, Bool, not, Option, none, some, List, [], ◌∷◌, ◌++◌, if◌then◌else◌, take, drop,
}
use cpam.Node.{Node, empty, regular, compressed, iterate_seq, push}
use cpam.Entry.{Entry}
use cpam.Map.Search.{matches}

-- Nothing for the keys that are left.
abbrev pub unwritten {κ μ} : {K : Type κ} {V : Type μ} → List K → List (Option V)
unwritten [] = []
unwritten (k ∷ ks) = none ∷ unwritten ks

module _ {ℓ κ μ} {E : Type ℓ} {K : Type κ} {V : Type μ} (ent : Entry E K V) where
  open ent use {get_key, get_val, comp}

  -- `emit_f` with the keys from A[ct] on, k and ks: what is written, and the keys that are left. The last
  -- key is not skipped.
  unfoldable pub emit : E → List (Option V) → K → List K → List (Option V) × List K
  emit et ret k [] = if matches ent k et then (push ret (some (get_val et)), []) else (ret, k ∷ [])
  emit et ret k (k' ∷ ks) =
      let past = emit et (push ret none) k' ks in
      let stay =
        if matches ent k et then (push ret (some (get_val et)), k' ∷ ks) else (ret, k ∷ k' ∷ ks) in
      if comp k (get_key et) then past else stay

  abbrev pub emit_f : List (Option V) × List K → E → List (Option V) × List K
  emit_f (ret, []) et = (ret, [])
  emit_f (ret, k ∷ ks) et = emit et ret k ks

  unfoldable pub multifind_sorted_bc : Node E → List K → List (Option V)
  multifind_sorted_bc b a =
      let found = iterate_seq emit_f b ([], a) in found.0 ++ unwritten (found.1)

  -- The part of A from A[mid] on: whether its first key is that of the root, and the keys behind that.
  abbrev pub found_at_root : E → List K → List (Option V)
  found_at_root e [] = []
  found_at_root e (k ∷ ks) = if not (comp (get_key e) k) then some (get_val e) ∷ [] else []

  abbrev pub past_root : E → List K → List K
  past_root e [] = []
  past_root e (k ∷ ks) = if not (comp (get_key e) k) then ks else k ∷ ks

module _ {ℓ κ μ} {E : Type ℓ} {K : Type κ} {V : Type μ} (ent : Entry E K V)
    (bisect : (K → Bool) → List K → ℕ) where
  open ent use {get_key, comp}

  unfoldable pub multi_find_sorted : Node E → List K → List (Option V)
  multi_find_sorted b [] = []
  multi_find_sorted empty (k ∷ ks) = unwritten (k ∷ ks)
  multi_find_sorted (compressed es) (k ∷ ks) = multifind_sorted_bc ent (compressed es) (k ∷ ks)
  multi_find_sorted (regular s lc e rc) (k ∷ ks) =
      let mid = bisect (λ a. comp a (get_key e)) (k ∷ ks) in
      let on_left = multi_find_sorted lc (take mid (k ∷ ks)) in
      let behind = drop mid (k ∷ ks) in
      let on_right = multi_find_sorted rc (past_root ent e behind) in
      on_left ++ (found_at_root ent e behind ++ on_right)
