-- ===== src/Map/MultiFind/Found.antt =====
-- `multi_find_sorted` on trees.
use cpam.Base.{
  ℕ, ◌≡◌, refl, sym, ap, ap₂, ◌∙◌, Bool, true, false, not, some, List, [], ◌∷◌, ◌++◌, if-both, All,
  take, drop, take-append-drop, subst, Bool-cases, inl, inr,
}
use cpam.Node.{Node, empty, regular, compressed}
use cpam.Node.Iterate.{entries}
use cpam.Search.Agree.{IsPartitioned}
use cpam.Entry.{Entry, key_entry}
use cpam.Entry.Sorted.{All-imp, IsSorted, IsJoin, lookup, lookup-middle, IsSorted-split, comp_asym}
use cpam.Map.MultiInsert.Arrays.{partitioned, take-IsSorted, drop-IsSorted}
use cpam.Map.MultiFind.{found_at_root, past_root, multi_find_sorted}
use cpam.Map.MultiFind.Answers.{
  answers, answers-append, answers-cong, answers-none, IsAscending, multifind_sorted_bc-eq_answers,
}

-- What is asked of parlay's binary search: where no element that is less stands behind one that is not, its
-- result is the number of those that are less.
abbrev pub IsSearch {κ} : {K : Type κ} → ((K → Bool) → List K → ℕ) → Type κ
IsSearch {K = K} bisect =
    (less : K → Bool) (xs : List K)
    → IsPartitioned less xs
    → All (λ k. less k ≡ true) (take (bisect less xs) xs)
      × All (λ k. less k ≡ false) (drop (bisect less xs) xs)

module _ {ℓ κ μ} {E : Type ℓ} {K : Type κ} {V : Type μ} (ent : Entry E K V) where
  open ent use {get_key, get_val, comp, comp_irrefl, comp_trans, comp_total}

  -- The keys on one side of a root find what they find in the child there.
  module _ (xs : List E) (e : E) (ys : List E) (j : IsJoin ent xs e ys) where
    answers-left :
        (ks : List K)
        → All (λ k. comp k (get_key e) ≡ true) ks
        → answers ent (xs ++ e ∷ ys) ks ≡ answers ent xs ks
    answers-left ks less = answers-cong ent (xs ++ e ∷ ys) xs ks (
        All-imp ks (λ k lt. lookup-middle ent k xs e ys (j.left_below) (j.right_above) ∙ rw lt refl)
          less)

    answers-right :
        (ks : List K)
        → All (λ k. comp (get_key e) k ≡ true) ks
        → answers ent (xs ++ e ∷ ys) ks ≡ answers ent ys ks
    answers-right ks greater = answers-cong ent (xs ++ e ∷ ys) ys ks (
        All-imp ks
          (λ k gt.
            lookup-middle ent k xs e ys (j.left_below) (j.right_above)
            ∙ rw (comp_asym ent (get_key e) k gt, gt) refl)
          greater)

    at_root : (k : K) → get_key e ≡ k → lookup ent k (xs ++ e ∷ ys) ≡ some e
    at_root k same =
        let here : lookup ent (get_key e) (xs ++ e ∷ ys) ≡ some e =
          lookup-middle ent (get_key e) xs e ys (j.left_below) (j.right_above)
          ∙ rw (comp_irrefl (get_key e)) refl in
        subst (λ q. lookup ent q (xs ++ e ∷ ys) ≡ some e) same here

    -- The keys from the split point on: the root's own, and those behind it.
    answers-behind_split :
        (ks : List K)
        → IsAscending ent ks
        → All (λ k. comp k (get_key e) ≡ false) ks
        → found_at_root ent e ks ++ answers ent ys (past_root ent e ks)
          ≡ answers ent (xs ++ e ∷ ys) ks
    answers-behind_split [] h least = refl
    answers-behind_split (k ∷ ks) (front, h) (ge, least) = elim (Bool-cases (comp (get_key e) k)) [
      | inl gt ↦ rw gt (
          sym (
            answers-right (k ∷ ks) (gt, All-imp ks (λ j p. comp_trans (get_key e) k j gt p) front)))
      | inr not_less ↦
          let same : get_key e ≡ k = comp_total (get_key e) k not_less ge in
          let greater : All (λ i. comp (get_key e) i ≡ true) ks =
            subst (λ q. All (λ i. comp q i ≡ true) ks) (sym same) front in
          rw (not_less, at_root k same)
            (ap (λ r. some (get_val e) ∷ r) (sym (answers-right ks greater)))
    ]

  past_root-IsAscending :
      (e : E) (ks : List K) → IsAscending ent ks → IsAscending ent (past_root ent e ks)
  past_root-IsAscending e [] h = h
  past_root-IsAscending e (k ∷ ks) (front, h) =
      if-both (IsAscending ent) (not (comp (get_key e) k)) h (front, h)

  -- For a binary search that finds the first element that is not less, a tree with its entries in
  -- the order of their keys and an array of keys in their order: what `multi_find_sorted` writes
  -- for each key is the value of the entry that a search of the list of all entries finds, and
  -- nothing where that finds nothing.
  pub multi_find_sorted-eq_answers :
      (bisect : (K → Bool) → List K → ℕ) (b : Node E) (a : List K)
      → IsSearch bisect
      → IsSorted ent (entries b)
      → IsAscending ent a
      → multi_find_sorted ent bisect b a ≡ answers ent (entries b) a
  unfolding multi_find_sorted
  multi_find_sorted-eq_answers bisect empty [] laws s h = refl
  multi_find_sorted-eq_answers bisect (compressed es) [] laws s h = refl
  multi_find_sorted-eq_answers bisect (regular n lc e rc) [] laws s h = refl
  multi_find_sorted-eq_answers bisect empty (k ∷ ks) laws s h = sym (answers-none ent (k ∷ ks))
  multi_find_sorted-eq_answers bisect (compressed es) (k ∷ ks) laws s h =
      multifind_sorted_bc-eq_answers ent (compressed es) (k ∷ ks) h s
  multi_find_sorted-eq_answers bisect (regular n lc e rc) (k ∷ ks) laws s h =
      let a = k ∷ ks in
      let mid = bisect (λ a. comp a (get_key e)) a in
      let j = IsSorted-split ent (entries lc) e (entries rc) s in
      let (less, least) =
        laws (λ a. comp a (get_key e)) a (partitioned (key_entry ent) (get_key e) a h) in
      let on_left =
        multi_find_sorted-eq_answers bisect lc (take mid a) laws (j.left_sorted)
          (take-IsSorted (key_entry ent) mid a h) in
      let behind = drop-IsSorted (key_entry ent) mid a h in
      let on_right =
        multi_find_sorted-eq_answers bisect rc (past_root ent e (drop mid a)) laws (j.right_sorted)
          (past_root-IsAscending e (drop mid a) behind) in
      ap₂ (λ l r. l ++ (found_at_root ent e (drop mid a) ++ r)) on_left on_right
      ∙ ap₂ (λ l r. l ++ r) (sym (answers-left (entries lc) e (entries rc) j (take mid a) less))
          (answers-behind_split (entries lc) e (entries rc) j (drop mid a) behind least)
      ∙ sym (answers-append ent (entries (regular n lc e rc)) (take mid a) (drop mid a))
      ∙ ap (answers ent (entries (regular n lc e rc))) (take-append-drop mid a)
