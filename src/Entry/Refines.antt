-- ===== src/Entry/Refines.antt =====
-- A tree as a finite map: `Refines` relates a tree to the function from keys to entries that it stands
-- for. The builders of trees are followed on these functions.
use cpam.Base.{
  ℕ, ◌<◌, ◌≡◌, refl, sym, ap, ap₂, ◌∙◌, true, false, Option, none, some, List, ◌∷◌, ◌++◌,
  if◌then◌else◌, length, length-append, arith, subst,
}
use cpam.Node.{Node, empty, regular}
use cpam.Node.Iterate.{entries}
use cpam.Node.Contents.{IsSized, Holds, Holds-self}
use cpam.Balance.{node_join}
use cpam.Balance.Join.{node_join-Holds}
use cpam.Seq.{with_parts, expose, join2}
use cpam.Seq.Contents.{expose_elim, join2-Holds}
use cpam.Entry.{Entry}
use cpam.Entry.Sorted.{
  lookup_at, Below, Above, IsSorted, lookup, IsSorted-join, IsSorted-split, lookup-middle,
  lookup-key, All-of_lookup, lookup-past_last, lookup-past_first, comp_asym, or_else, lookup-append,
  IsSorted-append,
}

module _ {ℓ κ μ} {E : Type ℓ} {K : Type κ} {V : Type μ} (ent : Entry E K V) where
  open ent use {get_key, comp, comp_irrefl, comp_trans, comp_total}

  -- The tree's size fields are right, its entries are in the order of their keys, and a key finds in
  -- it what it finds in `m`.
  pub record Refines (m : K → Option E) (t : Node E) : Type (ℓ ⊔ κ) where
    pub sized : IsSized t
    pub sorted : IsSorted ent (entries t)
    pub reads : (q : K) → lookup ent q (entries t) ≡ m q

  -- Any tree in order refines what it reads as.
  pub Refines-self :
      (t : Node E)
      → IsSized t
      → IsSorted ent (entries t)
      → Refines (λ q. lookup ent q (entries t)) t
  Refines-self t h s = record { sized = h; sorted = s; reads = λ q. refl }

  pub Refines-of_Holds :
      {xs : List E} (t : Node E) → Holds xs t → IsSorted ent xs → Refines (λ q. lookup ent q xs) t
  Refines-of_Holds t h s = record {
    sized = h.sized;
    sorted = subst (IsSorted ent) (sym h.held) s;
    reads = λ q. ap (lookup ent q) h.held;
  }

  pub Refines-ext :
      {m n : K → Option E} (t : Node E) → ((q : K) → m q ≡ n q) → Refines m t → Refines n t
  Refines-ext t same r = record {
    sized = r.sized;
    sorted = r.sorted;
    reads = λ q. r.reads q ∙ same q;
  }

  -- Every key that `m` has is less than k; is greater than k.
  abbrev pub AllBelow : K → (K → Option E) → Type (ℓ ⊔ κ)
  AllBelow k m = (q : K) (e : E) → m q ≡ some e → comp q k ≡ true

  abbrev pub AllAbove : K → (K → Option E) → Type (ℓ ⊔ κ)
  AllAbove k m = (q : K) (e : E) → m q ≡ some e → comp k q ≡ true

  pub Refines-key :
      {m : K → Option E} (t : Node E) (q : K) {e : E} → Refines m t → m q ≡ some e → get_key e ≡ q
  Refines-key t q r h = lookup-key ent q (entries t) (r.reads q ∙ h)

  pub Below-of_AllBelow :
      (k : K) {m : K → Option E} (t : Node E) → Refines m t → AllBelow k m → Below ent k (entries t)
  Below-of_AllBelow k t r below =
      All-of_lookup ent (λ e. comp (get_key e) k ≡ true) (entries t) r.sorted
        λ q e found.
          let same = lookup-key ent q (entries t) found in
          rw same (below q e (sym (r.reads q) ∙ found))

  pub Above-of_AllAbove :
      (k : K) {m : K → Option E} (t : Node E) → Refines m t → AllAbove k m → Above ent k (entries t)
  Above-of_AllAbove k t r above =
      All-of_lookup ent (λ e. comp k (get_key e) ≡ true) (entries t) r.sorted
        λ q e found.
          let same = lookup-key ent q (entries t) found in
          rw same (above q e (sym (r.reads q) ∙ found))

  -- The part of a map with keys less than k; with keys greater than k.
  abbrev pub under {ν} : {X : Type ν} → K → (K → Option X) → K → Option X
  under k m q = if comp q k then m q else none

  abbrev pub over {ν} : {X : Type ν} → K → (K → Option X) → K → Option X
  over k m q = if comp k q then m q else none

  pub AllBelow-under : (k : K) (m : K → Option E) → AllBelow k (under k m)
  AllBelow-under k m q e h = ground arith

  pub AllAbove-over : (k : K) (m : K → Option E) → AllAbove k (over k m)
  AllAbove-over k m q e h = ground arith

  -- Keys that are neither less nor greater have one answer.
  pub same_answer {ν} :
      {X : Type ν} (m : K → Option X) (a q : K) → comp q a ≡ false → comp a q ≡ false → m q ≡ m a
  same_answer m a q h1 h2 = ap m (comp_total q a h1 h2)

  pub empty-Refines : Refines (λ q. none) empty
  empty-Refines = record { sized = tt; sorted = tt; reads = λ q. refl }

  -- What a joined tree stands for, whatever joins the two sides and the entry between them.
  pub joined-Refines :
      {m n : K → Option E} (l : Node E) (e : E) (r t : Node E)
      → Refines m l
      → Refines n r
      → AllBelow (get_key e) m
      → AllAbove (get_key e) n
      → Holds (entries l ++ e ∷ entries r) t
      → Refines (λ q. lookup_at ent q e (m q) (n q)) t
  joined-Refines l e r t hl hr below above h =
      let b = Below-of_AllBelow (get_key e) l hl below in
      let a = Above-of_AllAbove (get_key e) r hr above in
      Refines-ext t
        (λ q.
          lookup-middle ent q (entries l) e (entries r) b a
          ∙ ap₂ (lookup_at ent q e) (hl.reads q) (hr.reads q))
        (Refines-of_Holds t h (IsSorted-join ent (entries l) e (entries r) hl.sorted b a hr.sorted))

  -- The parts of a root stand for the map on the two sides of its key.
  pub record IsParts (m : K → Option E) (n : ℕ) (l : Node E) (e : E) (r : Node E)
      : Type (ℓ ⊔ κ) where
    pub on_left : Refines (under (get_key e) m) l
    pub on_right : Refines (over (get_key e) m) r
    pub at_root : m (get_key e) ≡ some e
    pub left_shorter : length (entries l) < n
    pub right_shorter : length (entries r) < n

  pub IsParts-of_entries :
      {m : K → Option E} (t l : Node E) (e : E) (r : Node E)
      → Refines m t
      → IsSized l
      → IsSized r
      → entries t ≡ entries l ++ e ∷ entries r
      → IsParts m (length (entries t)) l e r
  IsParts-of_entries {m = m} t l e r h sl sr whole =
      let j = IsSorted-split ent (entries l) e (entries r) (subst (IsSorted ent) whole h.sorted) in
      let k = get_key e in
      let reads = λ (q : K).
        sym (h.reads q)
        ∙ ap (lookup ent q) whole
        ∙ lookup-middle ent q (entries l) e (entries r) j.left_below j.right_above in
      record {
        on_left = record {
          sized = sl;
          sorted = j.left_sorted;
          reads = λ q. ground (
            arith,
            reads q,
            lookup-past_last ent k q (entries l) j.left_below,
            comp_asym ent q k,
          );
        };
        on_right = record {
          sized = sr;
          sorted = j.right_sorted;
          reads = λ q. ground (
            arith,
            reads q,
            lookup-past_first ent k q (entries r) j.right_above,
            comp_asym ent k q,
          );
        };
        at_root = ground (arith, reads k, comp_irrefl k);
        left_shorter = rw whole (omega (arith, length-append (entries l) (e ∷ entries r)));
        right_shorter = rw whole (omega (arith, length-append (entries l) (e ∷ entries r)));
      }

  pub regular-IsParts :
      {m : K → Option E} (s : ℕ) (l : Node E) (e : E) (r : Node E)
      → Refines m (regular s l e r)
      → IsParts m (length (entries (regular s l e r))) l e r
  regular-IsParts s l e r h = IsParts-of_entries (regular s l e r) l e r h h.sized.0 h.sized.1 refl

module _ {ℓ κ μ} {E : Type ℓ} {K : Type κ} {V : Type μ} (ent : Entry E K V) (B : ℕ)
    (pos : 0 < B) where
  open ent use {get_key, comp, comp_irrefl, comp_trans, comp_total}

  -- `node_join` of two maps on the two sides of an entry's key.
  pub node_join-Refines :
      {m n : K → Option E} (l : Node E) (e : E) (r : Node E)
      → Refines ent m l
      → Refines ent n r
      → AllBelow ent (get_key e) m
      → AllAbove ent (get_key e) n
      → Refines ent (λ q. lookup_at ent q e (m q) (n q)) (node_join B l r e)
  node_join-Refines l e r hl hr below above =
      joined-Refines ent l e r (node_join B l r e) hl hr below above
        (node_join-Holds B pos l r e (Holds-self l hl.sized) (Holds-self r hr.sized))

  -- To prove something of what is done with an exposed map, prove it of the two sides of its root.
  pub expose-Refines {ν ξ} :
      {C : Type ν} (P : C → Type ξ) (past : C) (f : Node E → E → Node E → C) {m : K → Option E}
      (t : Node E)
      → Refines ent m t
      → (((q : K) → m q ≡ none) → P past)
      → ((l : Node E) (e : E) (r : Node E) → IsParts ent m (length (entries t)) l e r → P (f l e r))
      → P (with_parts past f (expose B t))
  expose-Refines P past f t h missing each =
      expose_elim B P past f t h.sized (λ nil. missing λ q. sym (h.reads q) ∙ ap (lookup ent q) nil)
        λ l e r sl sr whole. each l e r (IsParts-of_entries ent t l e r h sl sr whole)

  -- The concatenation of two maps on the two sides of a key.
  pub join2-Refines :
      {m n : K → Option E} (k : K) (l r : Node E)
      → Refines ent m l
      → Refines ent n r
      → AllBelow ent k m
      → AllAbove ent k n
      → Refines ent (λ q. or_else (m q) (n q)) (join2 B l r)
  join2-Refines k l r hl hr below above =
      let b = Below-of_AllBelow ent k l hl below in
      let a = Above-of_AllAbove ent k r hr above in
      Refines-ext ent (join2 B l r)
        (λ q.
          lookup-append ent k q (entries l) (entries r) b a ∙ ap₂ or_else (hl.reads q) (hr.reads q))
        (Refines-of_Holds ent (join2 B l r)
          (join2-Holds B pos l r (Holds-self l hl.sized) (Holds-self r hr.sized))
          (IsSorted-append ent k (entries l) (entries r) hl.sorted b a hr.sorted))
