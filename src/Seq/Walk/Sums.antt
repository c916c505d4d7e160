-- ===== src/Seq/Walk/Sums.antt =====
-- What the walks over a whole sequence compute.
use cpam.Base.{
  ℕ, zero, suc, ◌+◌, ◌<◌, ◌≡◌, refl, sym, ap, ap₂, ◌∙◌, Bool, true, false, List, [], ◌∷◌, ◌++◌,
  length, length-append, arith, u32_mod,
}
use mathlib.Core.Path.{fun_ext}
use cpam.Node.{Node, empty, regular, compressed, size, and_then, iterate_cond, decode, decode_cond}
use cpam.Node.Iterate.{entries, decode-append, iterate_seq-entries, iterate_cond-entries}
use cpam.Node.Contents.{IsSized}
use cpam.Seq.Contents.{expose_elim}
use cpam.Seq.Walk.{map_reduce, foreach_cond, node_stats, foreach_seq_loop, foreach_seq}

module _ {ℓ κ} {A : Type ℓ} {T : Type κ} (add : T → T → T) (identity : T)
    (add_assoc : (a b c : T) → add (add a b) c ≡ add a (add b c))
    (identity_left : (a : T) → add identity a ≡ a)
    (identity_right : (a : T) → add a identity ≡ a) where
  -- The sum of the images of a list, from its first entry on.
  abbrev pub sum_of : (A → T) → List A → T
  sum_of f [] = identity
  sum_of f (x ∷ xs) = add (f x) (sum_of f xs)

  sum_of-append :
      (f : A → T) (xs ys : List A) → sum_of f (xs ++ ys) ≡ add (sum_of f xs) (sum_of f ys)
  sum_of-append f [] ys = sym (identity_left (sum_of f ys))
  sum_of-append f (x ∷ xs) ys =
      ap (add (f x)) (sum_of-append f xs ys) ∙ sym (add_assoc (f x) (sum_of f xs) (sum_of f ys))

  decode-sum_of :
      (f : A → T) (es : List A) (v : T) → decode (λ v a. add v (f a)) es v ≡ add v (sum_of f es)
  unfolding decode
  decode-sum_of f [] v = sym (identity_right v)
  decode-sum_of f (x ∷ es) v = decode-sum_of f es (add v (f x)) ∙ add_assoc v (f x) (sum_of f es)

  -- For an associative operation with an identity on both sides `map_reduce` returns the sum of the
  -- images of all entries, taken from left to right.
  pub map_reduce-eq_sum_of :
      (f : A → T) (t : Node A) → map_reduce add identity f t ≡ sum_of f (entries t)
  unfolding map_reduce
  map_reduce-eq_sum_of f empty = refl
  map_reduce-eq_sum_of f (compressed es) =
      iterate_seq-entries (λ v a. add v (f a)) (compressed es) identity
      ∙ decode-sum_of f es identity
      ∙ identity_left (sum_of f es)
  map_reduce-eq_sum_of f (regular s l e r) =
      ap₂ add (map_reduce-eq_sum_of f l) (ap (add (f e)) (map_reduce-eq_sum_of f r))
      ∙ sym (sum_of-append f (entries l) (e ∷ entries r))

and_then_assoc {κ} :
    {S : Type κ} (r : Bool × S) (f g : S → Bool × S)
    → and_then (and_then r f) g ≡ and_then r (λ s. and_then (f s) g)
and_then_assoc (true, s) f g = refl
and_then_assoc (false, s) f g = refl

module _ {ℓ} {A : Type ℓ} where
  foreach_cond-eq_iterate_cond {κ} :
      {S : Type κ} (f : S → A → Bool × S) (t : Node A) (s : S)
      → foreach_cond f t s ≡ iterate_cond f t s
  unfolding foreach_cond iterate_cond
  foreach_cond-eq_iterate_cond f empty s = refl
  foreach_cond-eq_iterate_cond f (compressed es) s = refl
  foreach_cond-eq_iterate_cond f (regular n l e r) s =
      ap (λ g. and_then (and_then (foreach_cond f l s) (λ s1. f s1 e)) g)
        (fun_ext (foreach_cond-eq_iterate_cond f r))
      ∙ ap (λ m. and_then (and_then m (λ s1. f s1 e)) (iterate_cond f r))
          (foreach_cond-eq_iterate_cond f l s)
      ∙ and_then_assoc (iterate_cond f l s) (λ s1. f s1 e) (iterate_cond f r)

  pub foreach_cond-entries {κ} :
      {S : Type κ} (f : S → A → Bool × S) (t : Node A) (s : S)
      → foreach_cond f t s ≡ decode_cond f (entries t) s
  foreach_cond-entries f t s = foreach_cond-eq_iterate_cond f t s ∙ iterate_cond-entries f t s

  -- The entries of the tree are those at internal nodes and those in blocks.
  pub node_stats-length :
      (t : Node A)
      → length (entries t) < u32_mod
      → (node_stats t).0 + (node_stats t).2 ≡ length (entries t)
  unfolding node_stats size
  node_stats-length empty small = refl
  node_stats-length (compressed es) small = omega arith
  node_stats-length (regular s l e r) small =
      let len = length-append (entries l) (e ∷ entries r) in
      omega (
        arith,
        len,
        node_stats-length l (omega (arith, len)),
        node_stats-length r (omega (arith, len)),
      )

module _ {ℓ} {A : Type ℓ} (B : ℕ) where
  foreach_seq_loop-entries {κ} :
      {S : Type κ} (f : S → A → S) (fuel : ℕ) (t : Node A) (s : S)
      → IsSized t
      → length (entries t) < fuel
      → foreach_seq_loop B f fuel t s ≡ decode f (entries t) s
  unfolding foreach_seq_loop decode
  foreach_seq_loop-entries f zero t s h enough = absurd (omega arith)
  foreach_seq_loop-entries f (suc fuel) t s h enough =
      expose_elim B (λ o. o ≡ decode f (entries t) s) s _ t h (λ nil. rw nil refl)
        λ l e r sl sr whole.
          let len = length-append (entries l) (e ∷ entries r) in
          let total = ap length whole in
          foreach_seq_loop-entries f fuel r (f (foreach_seq_loop B f fuel l s) e) sr
            (omega (arith, len, total))
          ∙ ap (λ s'. decode f (entries r) (f s' e))
              (foreach_seq_loop-entries f fuel l s sl (omega (arith, len, total)))
          ∙ sym (decode-append f (entries l) (e ∷ entries r) s)
          ∙ ap (λ xs. decode f xs s) (sym whole)

  -- On a tree with right size fields `foreach_seq` hands the callback each entry once, from left to
  -- right, whatever the block size.
  pub foreach_seq-entries {κ} :
      {S : Type κ} (f : S → A → S) (t : Node A) (s : S)
      → IsSized t
      → foreach_seq B f t s ≡ decode f (entries t) s
  unfolding foreach_seq
  foreach_seq-entries f t s h =
      foreach_seq_loop-entries f (suc (length (entries t))) t s h (omega arith)
