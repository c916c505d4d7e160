-- ===== src/Seq/Scan/Unsorted.antt =====
-- What find_unsorted finds: a place in a block, and nothing at regular nodes.
use cpam.Base.{
  ℕ, ◌+◌, ◌≡◌, refl, ap₂, Bool, Option, none, some, List, [], ◌∷◌, if◌then◌else◌, Bool-cases, inl,
  inr,
}
use cpam.Node.{Node, empty, regular, compressed, decode_cond, iterate_cond}
use cpam.Seq.Scan.{first_of, unsorted_step, find_unsorted_compressed, find_unsorted}

module _ {ℓ} {A : Type ℓ} (same : A → A → Bool) where
  -- The place of the first entry that is the same, counted from i.
  abbrev pub place_from : ℕ → A → List A → Option ℕ
  place_from i e [] = none
  place_from i e (x ∷ xs) = let rest = place_from (i + 1) e xs in if same e x then some i else rest

  -- The place in the first block, from left to right, that has the entry.
  abbrev pub place_in_blocks : A → Node A → Option ℕ
  place_in_blocks e empty = none
  place_in_blocks e (compressed es) = place_from 0 e es
  place_in_blocks e (regular s l x r) = first_of (place_in_blocks e l) (place_in_blocks e r)

  decode_cond-place_from :
      (e : A) (es : List A) (i : ℕ)
      → (decode_cond {S = ℕ × Option ℕ} (unsorted_step same e) es (i, none)).1.1 ≡ place_from i e es
  unfolding decode_cond
  decode_cond-place_from e [] i = refl
  decode_cond-place_from e (x ∷ xs) i = elim (Bool-cases (same e x)) [
    | inl found ↦ rw found refl
    | inr other ↦ rw other (decode_cond-place_from e xs (i + 1))
  ]

  -- `find_unsorted` returns a place in the first block that has the entry, counted in that block.
  pub find_unsorted-eq_place_in_blocks :
      (t : Node A) (e : A) → find_unsorted same t e ≡ place_in_blocks e t
  unfolding find_unsorted find_unsorted_compressed iterate_cond
  find_unsorted-eq_place_in_blocks empty e = refl
  find_unsorted-eq_place_in_blocks (compressed es) e = decode_cond-place_from e es 0
  find_unsorted-eq_place_in_blocks (regular s l x r) e =
      ap₂ first_of (find_unsorted-eq_place_in_blocks l e) (find_unsorted-eq_place_in_blocks r e)
