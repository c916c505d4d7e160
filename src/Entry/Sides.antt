-- ===== src/Entry/Sides.antt =====
-- How a function of two maps is put together from its results on the two sides of a key: the recursive
-- case of the set operations.
use cpam.Base.{ℕ, ◌<◌, ◌≡◌, Option, none, some, arith}
use cpam.Node.{Node}
use cpam.Balance.{node_join}
use cpam.Seq.{join2}
use cpam.Entry.{Entry}
use cpam.Entry.Sorted.{comp_asym}
use cpam.Entry.Refines.{
  Refines, Refines-ext, under, over, same_answer, node_join-Refines, join2-Refines,
}

module _ {ℓ κ μ ν} {E : Type ℓ} {K : Type κ} {V : Type μ} {X : Type ν} (ent : Entry E K V)
    (g : Option E → Option X → Option E) where
  open ent use {get_key, comp, comp_irrefl, comp_total}

  -- The answers of two maps, put through g.
  abbrev pub zipped : (K → Option E) → (K → Option X) → K → Option E
  zipped m n q = g (m q) (n q)

  -- With an entry of the key in the result.
  pub joined_sides :
      {m : K → Option E} {n : K → Option X} (B : ℕ) (k : K) (l : Node E) (e : E) (r : Node E)
      → 0 < B
      → g none none ≡ none
      → get_key e ≡ k
      → g (m k) (n k) ≡ some e
      → Refines ent (zipped (under ent k m) (under ent k n)) l
      → Refines ent (zipped (over ent k m) (over ent k n)) r
      → Refines ent (zipped m n) (node_join B l r e)
  joined_sides {m = m} {n = n} B k l e r pos nothing key here hl hr =
      Refines-ext ent _
        (λ q. rw key (ground (arith, here, same_answer ent m k q, same_answer ent n k q)))
        (node_join-Refines ent B pos l e r hl hr (λ q x found. rw key (ground (arith, nothing)))
          (λ q x found. rw key (ground (arith, nothing))))

  -- Without one.
  pub joined2_sides :
      {m : K → Option E} {n : K → Option X} (B : ℕ) (k : K) (l r : Node E)
      → 0 < B
      → g none none ≡ none
      → g (m k) (n k) ≡ none
      → Refines ent (zipped (under ent k m) (under ent k n)) l
      → Refines ent (zipped (over ent k m) (over ent k n)) r
      → Refines ent (zipped m n) (join2 B l r)
  joined2_sides {m = m} {n = n} B k l r pos nothing here hl hr =
      Refines-ext ent _
        (λ q.
          ground
            (arith, here, nothing, same_answer ent m k q, same_answer ent n k q, comp_asym ent k q))
        (join2-Refines ent B pos k l r hl hr (λ q x found. ground (arith, nothing))
          (λ q x found. ground (arith, nothing)))
