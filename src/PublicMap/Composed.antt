-- ===== src/PublicMap/Composed.antt =====
-- Methods that compose the sort, the tree operations and finalize.
use cpam.Base.{
  ℕ, ◌+◌, ◌<◌, ◌≡◌, refl, sym, ap, ◌∙◌, false, Option, none, some, List, [], All, if-both, leb,
  subst, ◌⊎◌, inl, inr, Option-cases,
}
use mathlib.Core.List.{Memᴰ}
use cpam.Node.{Node, empty, compressed, size, push, iterate_seq}
use cpam.Node.Iterate.{entries, iterate_seq-push}
use cpam.Node.Blocks.{finalize, make_compressed_node}
use cpam.Entry.{Entry}
use cpam.Entry.Sorted.{IsSorted, lookup}
use cpam.Entry.Refines.{Refines, Refines-key, empty-Refines}
use cpam.Build.{IsSorting, less, sort_remove_duplicates}
use cpam.Build.Runs.{sort_remove_duplicates-IsDeduplicated}
use cpam.Map.Search.{find2, matches}
use cpam.Map.Search.Found.{find2-eq_lookup}
use cpam.Map.MultiInsert.Merged.{multi_insert_sorted-Refines, inserted_over}
use cpam.Map.Union.Merged.{combined, combined-none}
use cpam.Map.Insert.{combine_values}
use cpam.PublicMap.{get_right, maybe_entry_to_val, find, multi_insert, from_range}

module _ {ℓ κ μ} {E : Type ℓ} {K : Type κ} {V : Type μ} (ent : Entry E K V) (B : ℕ) where
  open ent use {get_key, get_val, set_val, comp, get_key-set_val, get_val-set_val, entry_ext}

  pub finalize-Refines :
      {m : K → Option E} (t : Node E) → Refines ent m t → Refines ent m (finalize B t)
  unfolding finalize make_compressed_node
  finalize-Refines {m = m} t h =
      let same : iterate_seq push t [] ≡ entries t = iterate_seq-push t [] in
      let block : Refines ent m (compressed (iterate_seq push t [])) = record {
        sized = tt;
        sorted = subst (IsSorted ent) (sym same) (h.sorted);
        reads = λ q. ap (lookup ent q) same ∙ h.reads q;
      } in
      if-both (Refines ent m) (leb (size t + 1) B)
        (if-both (Refines ent m) (leb 1 (size t)) block h) h

  -- A tree with the entries of an array put over those of m: for each key of the array one of its entries.
  pub record IsInserted (m : K → Option E) (xs : List E) (t : Node E) : Type (ℓ ⊔ κ) where
    pub contents : K → Option E
    pub refines : Refines ent contents t
    pub answers :
        (q : K)
        → ((contents q ≡ m q) × All (λ e. matches ent q e ≡ false) xs)
          ⊎ ((e : E) × (contents q ≡ some e) × Memᴰ e xs × (get_key e ≡ q))

  -- An entry replaced by one of the same key is that one.
  replaced : (a e : E) → get_key a ≡ get_key e → inserted_over ent get_right a e ≡ e
  unfolding combine_values
  replaced a e same =
      entry_ext _ e (get_key-set_val a (get_val e) ∙ same) (get_val-set_val a (get_val e))

module _ {ℓ κ μ} {E : Type ℓ} {K : Type κ} {V : Type μ} (ent : Entry E K V) (B base : ℕ)
    (sort : List E → List E) (pos : 0 < B) (laws : IsSorting (less ent) sort) where
  open ent use {get_key, get_val}

  -- For blocks of a positive size B, every base size of the binary search, a sort that returns an
  -- ordered permutation and a tree that refines m: `multi_insert` of an unsorted array returns a
  -- tree that refines a map which answers each key of the array with one of the array's entries of
  -- that key, and all other keys as m does.
  pub multi_insert-IsInserted :
      {m : K → Option E} (root : Node E) (ss : List E)
      → Refines ent m root
      → IsInserted ent B m ss (multi_insert ent B base sort root ss)
  unfolding multi_insert
  multi_insert-IsInserted {m = m} root ss h =
      let xs = sort_remove_duplicates ent sort ss in
      let unique = sort_remove_duplicates-IsDeduplicated ent sort ss laws in
      record {
        contents = λ q. combined ent (inserted_over ent get_right) (m q) (lookup ent q xs);
        refines = multi_insert_sorted-Refines ent B base pos root xs get_right h (unique.in_order);
        answers = λ q. elim (unique.answers q) [
          | inl (missing, none_has) ↦
              inl
                (rw missing (sym (combined-none ent (inserted_over ent get_right) (m q))), none_has)
          | inr (e, found, member, same) ↦ elim (Option-cases (m q)) [
            | inl new ↦ inr (e, rw (new, found) refl, member, same)
            | inr (a, old) ↦ inr (
              e,
              rw (old, found)
                  (ap some (replaced ent B a e (Refines-key ent root q h old ∙ sym same))),
              member,
              same,
            )
          ]
        ];
      }

  -- For blocks of a positive size B, every base size of the binary search and a sort that returns
  -- an ordered permutation: on the map that the constructor builds from an unsorted array `find` of
  -- a key returns the value of one of the array's entries of that key, or nothing where none has
  -- it.
  pub find-from_range :
      (s : List E) (q : K)
      → ((find ent (from_range ent B base sort s) q ≡ none) × All (λ e. matches ent q e ≡ false) s)
        ⊎ ((e : E) × (find ent (from_range ent B base sort s) q ≡ some (get_val e))
            × Memᴰ e s
            × (get_key e ≡ q))
  unfolding find from_range
  find-from_range s q =
      let built = multi_insert-IsInserted empty s (empty-Refines ent) in
      let done = finalize-Refines ent B (multi_insert ent B base sort empty s) (built.refines) in
      let root = finalize B (multi_insert ent B base sort empty s) in
      let read : find2 ent root q ≡ built.contents q =
        find2-eq_lookup ent root q (done.sorted) ∙ done.reads q in
      elim (built.answers q) [
        | inl (missing, none_has) ↦ inl (ap (maybe_entry_to_val ent) (read ∙ missing), none_has)
        | inr (e, found, member, same) ↦
            inr (e, ap (maybe_entry_to_val ent) (read ∙ found), member, same)
      ]
