-- ===== src/Node/Iterate.antt =====
-- The walks of basic_node.h against the list of a tree's entries.
use mathlib.Core.Path.{fun_ext}
use cpam.Base.{
  ◌≡◌, refl, sym, ap, ◌∙◌, Bool, true, false, List, [], ◌∷◌, ◌++◌, append-nil, append_assoc,
}
use cpam.Node.{
  Node, empty, regular, compressed, and_then, decode, decode_cond, iterate_seq, iterate_cond, push,
}

and_then_assoc {κ} :
    {S : Type κ} (m : Bool × S) (f g : S → Bool × S)
    → and_then (and_then m f) g ≡ and_then m (λ s. and_then (f s) g)
and_then_assoc (true, s) f g = refl
and_then_assoc (false, s) f g = refl

module _ {ℓ} {A : Type ℓ} where
  -- The entries from left to right.
  abbrev pub entries : Node A → List A
  entries empty = []
  entries (regular s l e r) = entries l ++ e ∷ entries r
  entries (compressed es) = es

  pub decode-append {κ} :
      {S : Type κ} (f : S → A → S) (xs ys : List A) (s : S)
      → decode f (xs ++ ys) s ≡ decode f ys (decode f xs s)
  unfolding decode
  decode-append f [] ys s = refl
  decode-append f (x ∷ xs) ys s = decode-append f xs ys (f s x)

  -- `iterate_seq` hands the callback each entry of the tree once, from left to right.
  pub iterate_seq-entries {κ} :
      {S : Type κ} (f : S → A → S) (t : Node A) (s : S) → iterate_seq f t s ≡ decode f (entries t) s
  unfolding iterate_seq decode
  iterate_seq-entries f empty s = refl
  iterate_seq-entries f (regular n l e r) s =
      iterate_seq-entries f r (f (iterate_seq f l s) e)
      ∙ rw (iterate_seq-entries f l s) (rw (decode-append f (entries l) (e ∷ entries r) s) refl)
  iterate_seq-entries f (compressed es) s = refl

  decode_cond-append {κ} :
      {S : Type κ} (f : S → A → Bool × S) (xs ys : List A) (s : S)
      → decode_cond f (xs ++ ys) s ≡ and_then (decode_cond f xs s) (λ s'. decode_cond f ys s')
  unfolding decode_cond
  decode_cond-append f [] ys s = refl
  decode_cond-append f (x ∷ xs) ys s =
      ap (and_then (f s x)) (fun_ext (decode_cond-append f xs ys))
      ∙ sym (and_then_assoc (f s x) (decode_cond f xs) (decode_cond f ys))

  -- `iterate_cond` hands the callback the entries of the tree from left to right, up to the first
  -- one that it refuses, and returns whether it refused none.
  pub iterate_cond-entries {κ} :
      {S : Type κ} (f : S → A → Bool × S) (t : Node A) (s : S)
      → iterate_cond f t s ≡ decode_cond f (entries t) s
  unfolding iterate_cond decode_cond
  iterate_cond-entries f empty s = refl
  iterate_cond-entries f (regular n l e r) s =
      ap (λ g. and_then (iterate_cond f l s) (λ s1. and_then (f s1 e) g))
        (fun_ext (iterate_cond-entries f r))
      ∙ ap (λ m. and_then m (decode_cond f (e ∷ entries r))) (iterate_cond-entries f l s)
      ∙ sym (decode_cond-append f (entries l) (e ∷ entries r) s)
  iterate_cond-entries f (compressed es) s = refl

  decode-push : (es buffer : List A) → decode push es buffer ≡ buffer ++ es
  unfolding decode
  decode-push [] buffer = sym (append-nil buffer)
  decode-push (e ∷ es) buffer = decode-push es (push buffer e) ∙ append_assoc buffer (e ∷ []) es

  pub iterate_seq-push :
      (t : Node A) (buffer : List A) → iterate_seq push t buffer ≡ buffer ++ entries t
  iterate_seq-push t buffer = iterate_seq-entries push t buffer ∙ decode-push (entries t) buffer
