-- ===== src/Aug.antt =====
-- include/cpam/augmented_node.h: nodes that also keep the sum of the entries below them, in a monoid that
-- the user chooses. The entry of a regular node is the pair of `e` and its sum `av`.
pub mod Cached
pub mod Sums
use cpam.Base.{
  ℕ, suc, ◌+◌, ◌%◌, Bool, true, false, List, [], ◌∷◌, ◌++◌, length, u32_mod, if◌then◌else◌,
}
use cpam.Node.{and_then, decode, decode_cond}

pub data AugNode {ℓ ν} (E : Type ℓ) (M : Type ν) : Type (ℓ ⊔ ν) where
  empty : AugNode E M
  regular : ℕ → AugNode E M → E → M → AugNode E M → AugNode E M
  compressed : M → List E → AugNode E M

-- The part of an Entry that concerns sums.
pub record Aug {ℓ ν} (E : Type ℓ) (M : Type ν) : Type (ℓ ⊔ ν) where
  pub get_empty : M
  pub from_entry : E → M
  pub combine : M → M → M

module _ {ℓ ν} {E : Type ℓ} {M : Type ν} where
  unfoldable pub size : AugNode E M → ℕ
  size empty = 0
  size (regular s l e av r) = s
  size (compressed av es) = length es % u32_mod

  abbrev pub is_empty : AugNode E M → Bool
  is_empty empty = true
  is_empty _ = false

  unfoldable pub iterate_seq {κ} : {S : Type κ} → (S → E → S) → AugNode E M → S → S
  iterate_seq f empty s = s
  iterate_seq f (regular n l e av r) s = iterate_seq f r (f (iterate_seq f l s) e)
  iterate_seq f (compressed av es) s = decode f es s

  unfoldable pub iterate_cond {κ} : {S : Type κ} → (S → E → Bool × S) → AugNode E M → S → Bool × S
  iterate_cond f empty s = (true, s)
  iterate_cond f (regular n l e av r) s =
      and_then (iterate_cond f l s) (λ s1. and_then (f s1 e) (λ s2. iterate_cond f r s2))
  iterate_cond f (compressed av es) s = decode_cond f es s

  -- The new size and what `f` makes of the old sum.
  unfoldable pub lazy_update : (M → M) → AugNode E M → E → M → AugNode E M → AugNode E M
  lazy_update f l e av r = regular ((size l + size r + 1) % u32_mod) l e (f av) r

module _ {ℓ ν} {E : Type ℓ} {M : Type ν} (aug : Aug E M) where
  open aug use {get_empty, from_entry, combine}

  unfoldable pub aug_val : AugNode E M → M
  aug_val empty = get_empty
  aug_val (regular s l e av r) = av
  aug_val (compressed av es) = av

  -- The sum of a node whose children and entry are set.
  abbrev pub updated_val : AugNode E M → E → AugNode E M → M
  updated_val l e r =
      let with_left = if is_empty l then from_entry e else combine (aug_val l) (from_entry e) in
      if is_empty r then with_left else combine with_left (aug_val r)

  unfoldable pub update : AugNode E M → E → AugNode E M → AugNode E M
  update l e r = regular ((size l + size r + 1) % u32_mod) l e (updated_val l e r) r

  unfoldable pub single : E → AugNode E M
  single e = regular 1 empty e (from_entry e) empty

  -- What the loop of `encode` adds to the sum of the entries before it.
  unfoldable pub encode_from : M → List E → M
  encode_from av [] = av
  encode_from av (e ∷ es) = encode_from (combine av (from_entry e)) es

  -- `make_single_compressed_node`, where the encoder returns the sum of data[0] and the entries behind it.
  unfoldable pub make_single_compressed_node : E → List E → AugNode E M
  make_single_compressed_node e es = compressed (encode_from (from_entry e) es) (e ∷ es)
