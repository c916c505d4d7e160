-- ===== src/Map/Insert/Inserted.antt =====
-- What an insertion into a tree without blocks yields, and what one into a block yields.
use cpam.Base.{
  ℕ, ◌<◌, ◌≡◌, refl, ◌∙◌, Bool, true, false, Option, none, some, if◌then◌else◌, if-split, arith,
}
use cpam.Node.{Node, empty, regular, compressed}
use cpam.Balance.{node_join}
use cpam.Seq.Contents.{single-Holds}
use cpam.Entry.{Entry}
use cpam.Entry.Sorted.{comp_asym, same_less, same_greater}
use cpam.Entry.Refines.{
  Refines, Refines-ext, Refines-of_Holds, AllBelow-under, AllAbove-over, under, over, same_answer,
  IsParts, node_join-Refines, regular-IsParts,
}
use cpam.Map.Insert.{combine_values, insert}

module _ {ℓ κ μ} {E : Type ℓ} {K : Type κ} {V : Type μ} (ent : Entry E K V) where
  open ent use {get_key, get_val, comp, comp_irrefl, comp_trans, comp_total, get_key-set_val}

  pub key-combine_values :
      (re e : E) (reverse : Bool) (op : V → V → V)
      → get_key (combine_values ent re e reverse op) ≡ get_key re
  unfolding combine_values
  key-combine_values re e true op = get_key-set_val re _
  key-combine_values re e false op = get_key-set_val re _

  -- No part of the tree is a block.
  abbrev pub HasNoBlocks : Node E → Type 0
  HasNoBlocks empty = Unit
  HasNoBlocks (regular s l e r) = HasNoBlocks l × HasNoBlocks r
  HasNoBlocks (compressed es) = ⊥

  -- A map with one answer replaced.
  abbrev pub updated : (K → Option E) → K → Option E → K → Option E
  updated m k answer q = if comp q k then m q else if comp k q then m q else answer

  -- The entry that an insertion leaves at its key.
  abbrev pub inserted_entry : E → (V → V → V) → Option E → E
  inserted_entry e f none = e
  inserted_entry e f (some old) = combine_values ent e old true f

module _ {ℓ κ μ} {E : Type ℓ} {K : Type κ} {V : Type μ} (ent : Entry E K V) (B : ℕ)
    (pos : 0 < B) where
  open ent use {get_key, get_val, comp, comp_irrefl, comp_trans, comp_total, get_key-set_val}

  pub inserted_right :
      {m : K → Option E} {n : ℕ} (lc : Node E) (be : E) (rc t : Node E) (k : K) (answer : Option E)
      → IsParts ent m n lc be rc
      → comp (get_key be) k ≡ true
      → Refines ent (updated ent (over ent (get_key be) m) k answer) t
      → Refines ent (updated ent m k answer) (node_join B lc t be)
  inserted_right {m = m} lc be rc t k answer p lt h =
      Refines-ext ent _
        (λ q. ground (
          arith,
          p.at_root,
          same_answer ent m (get_key be) q,
          same_less ent (get_key be) q k,
          same_less ent k q (get_key be),
          same_greater ent k q (get_key be),
          comp_asym ent (get_key be) q,
          comp_trans q (get_key be) k,
        ))
        (node_join-Refines ent B pos lc be t p.on_left h (AllBelow-under ent (get_key be) m)
          (λ q x found. ground (arith, same_greater ent k q (get_key be))))

  pub inserted_left :
      {m : K → Option E} {n : ℕ} (lc : Node E) (be : E) (rc t : Node E) (k : K) (answer : Option E)
      → IsParts ent m n lc be rc
      → comp k (get_key be) ≡ true
      → Refines ent (updated ent (under ent (get_key be) m) k answer) t
      → Refines ent (updated ent m k answer) (node_join B t rc be)
  inserted_left {m = m} lc be rc t k answer p gt h =
      Refines-ext ent _
        (λ q. ground (
          arith,
          p.at_root,
          same_answer ent m (get_key be) q,
          same_greater ent (get_key be) q k,
          same_less ent k q (get_key be),
          same_greater ent k q (get_key be),
          comp_asym ent q (get_key be),
          comp_trans k (get_key be) q,
        ))
        (node_join-Refines ent B pos t be rc h p.on_right
          (λ q x found. ground (arith, same_less ent k q (get_key be)))
          (AllAbove-over ent (get_key be) m))

  -- The root itself is replaced by an entry of its key.
  pub replaced_root :
      {m : K → Option E} {n : ℕ} (lc : Node E) (be new : E) (rc : Node E)
      → IsParts ent m n lc be rc
      → get_key new ≡ get_key be
      → Refines ent (updated ent m (get_key be) (some new)) (node_join B lc rc new)
  replaced_root {m = m} lc be new rc p same =
      Refines-ext ent _ (λ q. rw same (ground arith))
        (node_join-Refines ent B pos lc new rc p.on_left p.on_right
          (rw same (AllBelow-under ent (get_key be) m))
          (rw same (AllAbove-over ent (get_key be) m)))

  -- For blocks of a positive size B and a tree without blocks that refines m: `insert` returns a
  -- tree that refines m with the new entry at its key, its value combined as op(old, new) with that
  -- of an old entry of the key, and with m's answers to all other keys.
  pub insert-Refines :
      {m : K → Option E} (t : Node E) (e : E) (f : V → V → V)
      → HasNoBlocks ent t
      → Refines ent m t
      → Refines ent
          (updated ent m (get_key e) (some (inserted_entry ent e f (m (get_key e)))))
          (insert ent B t e f)
  unfolding insert
  insert-Refines {m = m} empty e f nb h =
      Refines-ext ent _ (λ q. ground (arith, h.reads q, h.reads (get_key e)))
        (Refines-of_Holds ent _ (single-Holds e) (tt, tt))
  insert-Refines (compressed es) e f nb h = absurd nb
  insert-Refines {m = m} (regular s lc be rc) e f nb h =
      let p = regular-IsParts ent s lc be rc h in
      let k = get_key e in
      let kb = get_key be in
      let new = combine_values ent e be true f in
      if-split (Refines ent (updated ent m k (some (inserted_entry ent e f (m k))))) (comp kb k)
        (λ lt.
          let deeper = insert-Refines {m = over ent kb m} rc e f nb.1 p.on_right in
          inserted_right lc be rc _ k _ p lt (Refines-ext ent _ (λ q. rw lt refl) deeper))
        λ ge.
          if-split (Refines ent (updated ent m k (some (inserted_entry ent e f (m k))))) (comp k kb)
            (λ gt.
              let deeper = insert-Refines {m = under ent kb m} lc e f nb.0 p.on_left in
              inserted_left lc be rc _ k _ p gt (Refines-ext ent _ (λ q. rw gt refl) deeper))
            λ le.
              let old : m k ≡ some be = same_answer ent m kb k le ge ∙ p.at_root in
              let same : k ≡ kb = comp_total k kb le ge in
              Refines-ext ent _ (λ q. rw old (rw (← same) refl))
                (replaced_root lc be new rc p (key-combine_values ent e be true f ∙ same))
