-- ===== src/Node/Contents.antt =====
-- What a tree denotes: the list of its entries, with each size field their number on 32 bits.
use cpam.Base.{◌+◌, ◌%◌, ◌≡◌, refl, List, ◌∷◌, ◌++◌, arith, length, length-append, u32_mod}
use cpam.Node.{Node, empty, regular, compressed, size, update}
use cpam.Node.Iterate.{entries}

module _ {ℓ} {A : Type ℓ} where
  -- Every size field is the number of entries below it, on 32 bits.
  abbrev pub IsSized : Node A → Type ℓ
  IsSized empty = Unit
  IsSized (regular s l e r) =
      IsSized l × IsSized r × (s ≡ (length (entries l) + 1 + length (entries r)) % u32_mod)
  IsSized (compressed es) = Unit

  pub record Holds (xs : List A) (t : Node A) : Type ℓ where
    pub sized : IsSized t
    pub held : entries t ≡ xs

  pub size-IsSized : (t : Node A) → IsSized t → size t ≡ length (entries t) % u32_mod
  unfolding size
  size-IsSized empty h = omega arith
  size-IsSized (regular s l e r) h = omega (arith, length-append (entries l) (e ∷ entries r))
  size-IsSized (compressed es) h = refl

  pub update-IsSized :
      (l : Node A) (e : A) (r : Node A) → IsSized l → IsSized r → IsSized (update l e r)
  unfolding update
  update-IsSized l e r hl hr = (hl, hr, omega (arith, size-IsSized l hl, size-IsSized r hr))

  pub update-Holds :
      {xs ys : List A} (l : Node A) (e : A) (r : Node A)
      → Holds xs l
      → Holds ys r
      → Holds (xs ++ e ∷ ys) (update l e r)
  unfolding update
  update-Holds l e r hl hr = record {
    sized = update-IsSized l e r hl.sized hr.sized;
    held = rw (hl.held, hr.held);
  }

  pub Holds-self : (t : Node A) → IsSized t → Holds (entries t) t
  Holds-self t h = record { sized = h; held = refl }
