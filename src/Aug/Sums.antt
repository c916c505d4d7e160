-- ===== src/Aug/Sums.antt =====
-- include/cpam/augmented_ops.h: sums over the keys on one side of a key or between two keys, and the entry
-- at which a test of sums fails first. An aug_sum_t is its result.
pub mod Keys
pub mod Left
pub mod Ranges
pub mod Select
use cpam.Base.{Bool, true, false, not, ◌&&◌, Option, none, some, List, [], ◌∷◌, if◌then◌else◌}
use cpam.Aug.{
  AugNode, empty, regular, compressed, Aug, is_empty, iterate_seq, iterate_cond, aug_val,
}
use cpam.Entry.{Entry}

module _ {ℓ ν} {E : Type ℓ} {M : Type ν} (aug : Aug E M) where
  open aug use {from_entry, combine}

  abbrev pub add_entry : M → E → M
  add_entry a e = combine a (from_entry e)

  -- `add_aug_val` of a child that is there.
  abbrev pub add_child : M → AugNode E M → M
  add_child a t = if is_empty t then a else combine a (aug_val aug t)

  unfoldable pub aug_select : AugNode E M → (M → Bool) → Option E
  aug_select empty f = none
  aug_select (compressed av es) f =
      (iterate_cond (λ ret et. if not (f (from_entry et)) then (false, some et) else (true, ret))
        (compressed av es) none).1
  aug_select (regular s l e av r) f =
      let on_left = aug_select l f in
      let on_right = aug_select r f in
      if f (aug_val aug l) then (if f (from_entry e) then on_right else some e) else on_left

module _ {ℓ κ μ ν} {E : Type ℓ} {K : Type κ} {V : Type μ} {M : Type ν} (ent : Entry E K V)
    (aug : Aug E M) where
  open ent use {get_key, comp}

  unfoldable pub aug_sum_left : AugNode E M → K → M → M
  aug_sum_left empty key a = a
  aug_sum_left (compressed av es) key a =
      (iterate_cond
        (λ a et. if comp (get_key et) key then (true, add_entry aug a et) else (false, a))
        (compressed av es) a).1
  aug_sum_left (regular s l e av r) key a =
      let on_right = aug_sum_left r key (add_child aug (add_entry aug a e) l) in
      let on_left = aug_sum_left l key a in if not (comp key (get_key e)) then on_right else on_left

  unfoldable pub aug_sum_right : AugNode E M → K → M → M
  aug_sum_right empty key a = a
  aug_sum_right (compressed av es) key a =
      iterate_seq (λ a et. if not (comp (get_key et) key) then add_entry aug a et else a)
        (compressed av es) a
  aug_sum_right (regular s l e av r) key a =
      let on_left = aug_sum_right l key (add_child aug (add_entry aug a e) r) in
      let on_right = aug_sum_right r key a in
      if not (comp (get_key e) key) then on_left else on_right

  -- `range_root_2` on these nodes.
  unfoldable pub range_root : AugNode E M → K → K → AugNode E M
  range_root empty key_left key_right = empty
  range_root (compressed av es) key_left key_right = compressed av es
  range_root (regular s l e av r) key_left key_right =
      let on_left = range_root l key_left key_right in
      let on_right = range_root r key_left key_right in
      if comp key_right (get_key e)
      then on_left
      else if comp (get_key e) key_left
      then on_right
      else regular s l e av r

  -- What `aug_sum_range` does at the root that it finds.
  unfoldable pub sum_at_root : AugNode E M → K → K → M → M
  sum_at_root empty key_left key_right a = a
  sum_at_root (compressed av es) key_left key_right a =
      iterate_seq
        (λ a et.
          if comp key_left (get_key et) && comp (get_key et) key_right
          then add_entry aug a et
          else a)
        (compressed av es) a
  sum_at_root (regular s l e av r) key_left key_right a =
      aug_sum_left r key_right (add_entry aug (aug_sum_right l key_left a) e)

  unfoldable pub aug_sum_range : AugNode E M → K → K → M → M
  aug_sum_range b key_left key_right a =
      sum_at_root (range_root b key_left key_right) key_left key_right a
