-- ===== src/Seq/Bulk/Images.antt =====
-- What map, filter and reverse yield.
use cpam.Base.{
  ℕ, ◌<◌, ◌≡◌, refl, sym, ap, ap₂, ◌∙◌, Bool, true, false, List, [], ◌∷◌, ◌++◌, if◌then◌else◌,
  if-both, if-split, append-nil, append_assoc, arith,
}
use cpam.Base
use mathlib.Core.List.{map-append, reverse-append, reverse-cons}
use cpam.Node.{Node, empty, regular, compressed, push, decode}
use cpam.Node.Iterate.{entries, iterate_seq-entries}
use cpam.Node.Contents.{Holds}
use cpam.Node.Compressed.{compressed-Holds, empty-Holds, make_compressed_array-Holds}
use cpam.Balance.Join.{node_join-Holds}
use cpam.Seq.{join, join2}
use cpam.Seq.Contents.{build_tree-Holds, join-Holds, join2-Holds}
use cpam.Seq.Bulk.{map_compressed, map, filter_bc, filter, reverse}

module _ {ℓ κ} {A : Type ℓ} {C : Type κ} where
  decode-map :
      (f : A → C) (es : List A) (arr : List C)
      → decode (λ arr e. push arr (f e)) es arr ≡ arr ++ Base.map f es
  unfolding decode
  decode-map f [] arr = sym (append-nil arr)
  decode-map f (x ∷ es) arr =
      decode-map f es (push arr (f x)) ∙ append_assoc arr (f x ∷ []) (Base.map f es)

module _ {ℓ κ} {A : Type ℓ} {C : Type κ} (B : ℕ) (pos : 0 < B) where
  -- For blocks of a positive size B: `map` returns a tree with right size fields that holds the
  -- images of the entries, in their order.
  pub map-Holds : (f : A → C) (t : Node A) → Holds (Base.map f (entries t)) (map B f t)
  unfolding map map_compressed
  map-Holds f empty = empty-Holds
  map-Holds f (compressed es) =
      rw (iterate_seq-entries (λ arr e. push arr (f e)) (compressed es) [], decode-map f es [])
        (make_compressed_array-Holds B (Base.map f es) pos)
  map-Holds f (regular s l e r) =
      rw (map-append f (entries l) (e ∷ entries r))
        (node_join-Holds B pos (map B f l) (map B f r) (f e) (map-Holds f l) (map-Holds f r))

module _ {ℓ} {A : Type ℓ} where
  -- The entries of a list that pass a test, in its order.
  abbrev pub passing : (A → Bool) → List A → List A
  passing f [] = []
  passing f (x ∷ xs) = let rest = passing f xs in if f x then x ∷ rest else rest

  passing-append :
      (f : A → Bool) (xs ys : List A) → passing f (xs ++ ys) ≡ passing f xs ++ passing f ys
  passing-append f [] ys = refl
  passing-append f (x ∷ xs) ys = ground (arith, passing-append f xs ys)

  pub decode-passing :
      (f : A → Bool) (es stack : List A)
      → decode (λ stack a. if f a then push stack a else stack) es stack ≡ stack ++ passing f es
  unfolding decode
  decode-passing f [] stack = sym (append-nil stack)
  decode-passing f (x ∷ es) stack =
      decode-passing f es (if f x then push stack x else stack)
      ∙ ground (arith, append_assoc stack (x ∷ []) (passing f es))

  decode-reversed : (es arr : List A) → decode (λ arr e. e ∷ arr) es arr ≡ Base.reverse es ++ arr
  unfolding decode
  decode-reversed [] arr = refl
  decode-reversed (x ∷ es) arr =
      decode-reversed es (x ∷ arr)
      ∙ rw (reverse-cons x es) (sym (append_assoc (Base.reverse es) (x ∷ []) arr))

module _ {ℓ} {A : Type ℓ} (B : ℕ) (pos : 0 < B) where
  filter_root :
      {xs ys : List A} (f : A → Bool) (l : Node A) (e : A) (r : Node A)
      → Holds xs l
      → Holds ys r
      → Holds (xs ++ (if f e then e ∷ ys else ys)) (if f e then join B l e r else join2 B l r)
  filter_root {xs = xs} {ys = ys} f l e r hl hr =
      elim (f e)
        as (λ b.
          Holds (xs ++ (if b then e ∷ ys else ys)) (if b then join B l e r else join2 B l r)) [
            | true ↦ join-Holds B pos l e r hl hr
            | false ↦ join2-Holds B pos l r hl hr
          ]

  -- For blocks of a positive size B: `filter` returns a tree with right size fields that holds the
  -- entries that pass the test, in their order.
  pub filter-Holds : (f : A → Bool) (t : Node A) → Holds (passing f (entries t)) (filter B f t)
  unfolding filter filter_bc
  filter-Holds f empty = empty-Holds
  filter-Holds f (compressed es) =
      rw
        (
          iterate_seq-entries (λ stack a. if f a then push stack a else stack) (compressed es) [],
          decode-passing f es [],
        )
        (build_tree-Holds B pos (passing f es))
  filter-Holds f (regular s l e r) =
      rw (passing-append f (entries l) (e ∷ entries r))
        (filter_root f (filter B f l) e (filter B f r) (filter-Holds f l) (filter-Holds f r))

  -- For blocks of a positive size B: `reverse` returns a tree with right size fields that holds the
  -- entries from the last to the first.
  pub reverse-Holds : (t : Node A) → Holds (Base.reverse (entries t)) (reverse B t)
  unfolding reverse
  reverse-Holds empty = empty-Holds
  reverse-Holds (compressed es) =
      rw
        (
          iterate_seq-entries (λ arr e. e ∷ arr) (compressed es) [],
          decode-reversed es [],
          append-nil (Base.reverse es),
        )
        (compressed-Holds (Base.reverse es))
  reverse-Holds (regular s l e r) =
      rw
        (
          reverse-append (entries l) (e ∷ entries r),
          reverse-cons e (entries r),
          append_assoc (Base.reverse (entries r)) (e ∷ []) (Base.reverse (entries l)),
        )
        (node_join-Holds B pos (reverse B r) (reverse B l) e (reverse-Holds r) (reverse-Holds l))
