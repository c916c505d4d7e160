-- ===== src/Map/MultiFind/Answers.antt =====
-- `multi_find_sorted` answers each key as a search of all entries does.
use cpam.Base.{
  ◌≡◌, refl, sym, ap, ap₂, ◌∙◌, true, Option, none, some, List, [], ◌∷◌, ◌++◌, append-nil,
  append_assoc, if-both, All, arith, Bool-cases, inl, inr, subst,
}
use cpam.Node.{Node, iterate_seq, decode, push}
use cpam.Node.Iterate.{entries, iterate_seq-entries}
use cpam.Entry.{Entry, key_entry}
use cpam.Entry.Sorted.{All-imp, Above, IsSorted, lookup, lookup-Above, Above-trans}
use cpam.Map.Search.{matches}
use cpam.Map.MultiFind.{unwritten, emit, emit_f, multifind_sorted_bc}
use cpam.PublicMap.{maybe_entry_to_val}

module _ {ℓ κ μ} {E : Type ℓ} {K : Type κ} {V : Type μ} (ent : Entry E K V) where
  open ent use {get_key, get_val, comp, comp_irrefl, comp_trans, comp_total}

  -- The values of keys in a list of entries.
  abbrev pub answers : List E → List K → List (Option V)
  answers es [] = []
  answers es (k ∷ ks) = maybe_entry_to_val ent (lookup ent k es) ∷ answers es ks

  abbrev pub IsAscending : List K → Type 0
  IsAscending ks = IsSorted (key_entry ent) ks

  pub answers-append :
      (es : List E) (ks js : List K) → answers es (ks ++ js) ≡ answers es ks ++ answers es js
  answers-append es [] js = refl
  answers-append es (k ∷ ks) js =
      ap (λ r. maybe_entry_to_val ent (lookup ent k es) ∷ r) (answers-append es ks js)

  pub answers-cong :
      (es fs : List E) (ks : List K)
      → All (λ k. lookup ent k es ≡ lookup ent k fs) ks
      → answers es ks ≡ answers fs ks
  answers-cong es fs [] h = refl
  answers-cong es fs (k ∷ ks) (same, h) =
      ap₂ (λ o r. maybe_entry_to_val ent o ∷ r) same (answers-cong es fs ks h)

  pub answers-none : (ks : List K) → answers [] ks ≡ unwritten ks
  answers-none [] = refl
  answers-none (k ∷ ks) = ap (λ r. none ∷ r) (answers-none ks)

  -- What is written, and what the entries es say of the keys that are left.
  abbrev filled : List E → List (Option V) × List K → List (Option V)
  filled es (ret, ks) = ret ++ answers es ks

  push-append :
      (ret : List (Option V)) (o : Option V) (r : List (Option V)) → push ret o ++ r ≡ ret ++ o ∷ r
  push-append ret o r = append_assoc ret (o ∷ []) r

  -- Keys behind that of e find among all entries what they find behind e.
  answers-behind :
      (e : E) (es : List E) (ks : List K)
      → All (λ k. comp (get_key e) k ≡ true) ks
      → answers (e ∷ es) ks ≡ answers es ks
  answers-behind e es ks above = answers-cong (e ∷ es) es ks (
      All-imp ks
        (λ k gt. ground (arith, comp_trans (get_key e) k (get_key e), comp_irrefl (get_key e)))
        above)

  filled-emit :
      (e : E) (es : List E) (ret : List (Option V)) (k : K) (ks : List K)
      → IsAscending (k ∷ ks)
      → Above ent (get_key e) es
      → filled es (emit ent e ret k ks) ≡ ret ++ answers (e ∷ es) (k ∷ ks)
  unfolding emit
  filled-emit e es ret k [] h above = elim (Bool-cases (comp k (get_key e))) [
    | inl lt ↦ rw lt refl
    | inr ge ↦ elim (Bool-cases (comp (get_key e) k)) [
      | inl gt ↦ rw (ge, gt) refl
      | inr same ↦ rw (ge, same) (append-nil _)
    ]
  ]
  filled-emit e es ret k (k' ∷ ks) (front, h) above = elim (Bool-cases (comp k (get_key e))) [
    | inl lt ↦
        let missing = lookup-Above ent k es (Above-trans ent k (get_key e) es lt above) in
        rw (lt, missing)
          (filled-emit e es (push ret none) k' ks h above
            ∙ push-append ret none (answers (e ∷ es) (k' ∷ ks)))
    | inr ge ↦ elim (Bool-cases (comp (get_key e) k)) [
      | inl gt ↦
          let greater : All (λ j. comp (get_key e) j ≡ true) (k' ∷ ks) =
            All-imp (k' ∷ ks) (λ j p. comp_trans (get_key e) k j gt p) front in
          rw (ge, gt)
            (ap (λ r. ret ++ maybe_entry_to_val ent (lookup ent k es) ∷ r)
              (sym (answers-behind e es (k' ∷ ks) greater)))
      | inr same ↦
          let equal : get_key e ≡ k = comp_total (get_key e) k same ge in
          let greater : All (λ j. comp (get_key e) j ≡ true) (k' ∷ ks) =
            subst (λ key. All (λ j. comp key j ≡ true) (k' ∷ ks)) (sym equal) front in
          rw (ge, same)
            (push-append ret (some (get_val e)) (answers es (k' ∷ ks))
              ∙ ap (λ r. ret ++ some (get_val e) ∷ r) (sym (answers-behind e es (k' ∷ ks) greater)))
    ]
  ]

  emit-IsAscending :
      (e : E) (ret : List (Option V)) (k : K) (ks : List K)
      → IsAscending (k ∷ ks)
      → IsAscending ((emit ent e ret k ks).1)
  unfolding emit
  emit-IsAscending e ret k [] h =
      if-both (λ (st : List (Option V) × List K). IsAscending (st.1)) (matches ent k e) tt h
  emit-IsAscending e ret k (k' ∷ ks) (front, h) =
      if-both (λ (st : List (Option V) × List K). IsAscending (st.1)) (comp k (get_key e))
        (emit-IsAscending e (push ret none) k' ks h)
        (if-both (λ (st : List (Option V) × List K). IsAscending (st.1)) (matches ent k e) h
          (front, h))

  emit_f-IsAscending :
      (e : E) (st : List (Option V) × List K)
      → IsAscending (st.1)
      → IsAscending ((emit_f ent st e).1)
  emit_f-IsAscending e (ret, []) h = tt
  emit_f-IsAscending e (ret, k ∷ ks) h = emit-IsAscending e ret k ks h

  filled-emit_f :
      (e : E) (es : List E) (st : List (Option V) × List K)
      → IsAscending (st.1)
      → Above ent (get_key e) es
      → filled es (emit_f ent st e) ≡ filled (e ∷ es) st
  filled-emit_f e es (ret, []) h above = refl
  filled-emit_f e es (ret, k ∷ ks) h above = filled-emit e es ret k ks h above

  filled-decode :
      (es : List E) (st : List (Option V) × List K)
      → IsAscending (st.1)
      → IsSorted ent es
      → filled [] (decode (emit_f ent) es st) ≡ filled es st
  unfolding decode
  filled-decode [] st h s = refl
  filled-decode (e ∷ es) st h (above, s) =
      filled-decode es (emit_f ent st e) (emit_f-IsAscending e st h) s
      ∙ filled-emit_f e es st h above

  pub multifind_sorted_bc-eq_answers :
      (b : Node E) (ks : List K)
      → IsAscending ks
      → IsSorted ent (entries b)
      → multifind_sorted_bc ent b ks ≡ answers (entries b) ks
  unfolding multifind_sorted_bc
  multifind_sorted_bc-eq_answers b ks h s =
      let st = iterate_seq (emit_f ent) b ([], ks) in
      ap (λ r. st.0 ++ r) (sym (answers-none (st.1)))
      ∙ ap (filled []) (iterate_seq-entries (emit_f ent) b ([], ks))
      ∙ filled-decode (entries b) ([], ks) h s
