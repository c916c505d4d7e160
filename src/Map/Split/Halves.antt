-- ===== src/Map/Split/Halves.antt =====
-- `split` cuts a map at a key.
use cpam.Base.{
  ℕ, zero, suc, ◌<◌, ◌≡◌, refl, sym, ◌∙◌, true, false, Option, none, some, length, if-split, arith,
}
use cpam.Node.{Node, empty}
use cpam.Node.Iterate.{entries}
use cpam.Seq.{join}
use cpam.Entry.{Entry}
use cpam.Entry.Sorted.{lookup_at, comp_asym, same_less, same_greater}
use cpam.Entry.Refines.{
  Refines, Refines-ext, same_answer, AllBelow-under, AllAbove-over, AllBelow, AllAbove, under, over,
  empty-Refines, IsParts, node_join-Refines, expose-Refines,
}
use cpam.Map.Split.{SplitInfo, split_empty, split_left, split_right, split_loop, split}

module _ {ℓ κ μ} {E : Type ℓ} {K : Type κ} {V : Type μ} (ent : Entry E K V) where
  open ent use {get_key, comp, comp_irrefl, comp_trans, comp_total}

  -- The smaller keys on the left, the greater ones on the right, and the entry of k between them.
  pub record IsSplit (m : K → Option E) (k : K) (s : SplitInfo E) : Type (ℓ ⊔ κ) where
    pub smaller : Refines ent (under ent k m) s.l
    pub greater : Refines ent (over ent k m) s.r
    pub at_key : s.mid ≡ m k

module _ {ℓ κ μ} {E : Type ℓ} {K : Type κ} {V : Type μ} (ent : Entry E K V) (B : ℕ)
    (pos : 0 < B) where
  open ent use {get_key, comp, comp_irrefl, comp_trans, comp_total}

  -- Join as sequence_ops.h spells it.
  pub join-Refines :
      {m n : K → Option E} (l : Node E) (e : E) (r : Node E)
      → Refines ent m l
      → Refines ent n r
      → AllBelow ent (get_key e) m
      → AllAbove ent (get_key e) n
      → Refines ent (λ q. lookup_at ent q e (m q) (n q)) (join B l e r)
  unfolding join
  join-Refines l e r hl hr below above = node_join-Refines ent B pos l e r hl hr below above

  split_right-IsSplit :
      {m : K → Option E} {n : ℕ} (k : K) (lc : Node E) (e : E) (rc : Node E) (s : SplitInfo E)
      → IsParts ent m n lc e rc
      → comp (get_key e) k ≡ true
      → IsSplit ent (over ent (get_key e) m) k s
      → IsSplit ent m k (split_right ent B s lc e)
  split_right-IsSplit {m = m} k lc e rc s p lt h = record {
    smaller =
        Refines-ext ent _
          (λ q. ground (
            arith,
            comp_trans q (get_key e) k,
            comp_asym ent (get_key e) q,
            same_answer ent m (get_key e) q,
            p.at_root,
            same_less ent (get_key e) q k,
          ))
          (join-Refines lc e s.l p.on_left h.smaller (AllBelow-under ent (get_key e) m)
            (λ q x found. ground arith));
    greater = Refines-ext ent _ (λ q. ground (arith, comp_trans (get_key e) k q)) h.greater;
    at_key = h.at_key ∙ rw lt refl;
  }

  split_left-IsSplit :
      {m : K → Option E} {n : ℕ} (k : K) (lc : Node E) (e : E) (rc : Node E) (s : SplitInfo E)
      → IsParts ent m n lc e rc
      → comp k (get_key e) ≡ true
      → IsSplit ent (under ent (get_key e) m) k s
      → IsSplit ent m k (split_left ent B s e rc)
  split_left-IsSplit {m = m} k lc e rc s p gt h = record {
    smaller = Refines-ext ent _ (λ q. ground (arith, comp_trans q k (get_key e))) h.smaller;
    greater =
        Refines-ext ent _
          (λ q. ground (
            arith,
            comp_trans k (get_key e) q,
            comp_asym ent q (get_key e),
            same_answer ent m (get_key e) q,
            p.at_root,
            same_greater ent (get_key e) q k,
          ))
          (join-Refines s.r e rc h.greater p.on_right (λ q x found. ground arith)
            (AllAbove-over ent (get_key e) m));
    at_key = h.at_key ∙ rw gt refl;
  }

  here-IsSplit :
      {m : K → Option E} {n : ℕ} (k : K) (lc : Node E) (e : E) (rc : Node E)
      → IsParts ent m n lc e rc
      → comp (get_key e) k ≡ false
      → comp k (get_key e) ≡ false
      → IsSplit ent m k (record { l = lc; mid = some e; r = rc })
  here-IsSplit {m = m} k lc e rc p ge le = record {
    smaller = Refines-ext ent lc (λ q. ground (arith, same_greater ent (get_key e) k q)) p.on_left;
    greater = Refines-ext ent rc (λ q. ground (arith, same_less ent (get_key e) k q)) p.on_right;
    at_key = sym p.at_root ∙ sym (same_answer ent m (get_key e) k le ge);
  }

  empty-IsSplit : {m : K → Option E} (k : K) → ((q : K) → m q ≡ none) → IsSplit ent m k split_empty
  empty-IsSplit k missing = record {
    smaller = Refines-ext ent empty (λ q. ground (arith, missing q)) (empty-Refines ent);
    greater = Refines-ext ent empty (λ q. ground (arith, missing q)) (empty-Refines ent);
    at_key = sym (missing k);
  }

  split_loop-IsSplit :
      {m : K → Option E} (fuel : ℕ) (a : Node E) (k : K)
      → length (entries a) < fuel
      → Refines ent m a
      → IsSplit ent m k (split_loop ent B fuel a k)
  unfolding split_loop
  split_loop-IsSplit zero a k h r = absurd (omega arith)
  split_loop-IsSplit {m = m} (suc fuel) a k h r =
      expose-Refines ent B pos (IsSplit ent m k) _ _ a r (empty-IsSplit k) λ lc e rc p.
        if-split (IsSplit ent m k) (comp (get_key e) k)
          (λ lt. split_right-IsSplit k lc e rc _ p lt (
            split_loop-IsSplit {m = over ent (get_key e) m} fuel rc k
              (omega (arith, p.right_shorter)) p.on_right))
          λ ge.
            if-split (IsSplit ent m k) (comp k (get_key e))
              (λ gt. split_left-IsSplit k lc e rc _ p gt (
                split_loop-IsSplit {m = under ent (get_key e) m} fuel lc k
                  (omega (arith, p.left_shorter)) p.on_left))
              (here-IsSplit k lc e rc p ge)

  -- For blocks of a positive size B and a tree that refines m: `split` returns two trees that
  -- refine m on the smaller and on the greater keys, and m's answer to the key itself.
  pub split-IsSplit :
      {m : K → Option E} (a : Node E) (k : K) → Refines ent m a → IsSplit ent m k (split ent B a k)
  unfolding split
  split-IsSplit a k r = split_loop-IsSplit (suc (length (entries a))) a k (omega arith) r
