-- ===== src/Map/Search.antt =====
-- include/cpam/map_ops.h: find, find2 and rank.
pub mod Found
use cpam.Base.{ℕ, suc, ◌+◌, Bool, true, false, not, ◌||◌, Option, none, some, List, if◌then◌else◌}
use cpam.Node.{Node, empty, regular, compressed, size, iterate_seq, iterate_cond}
use cpam.Entry.{Entry}

module _ {ℓ κ μ} {E : Type ℓ} {K : Type κ} {V : Type μ} (ent : Entry E K V) where
  open ent use {get_key, comp}

  -- Neither less nor greater.
  abbrev pub matches : K → E → Bool
  matches key et = not (comp key (get_key et) || comp (get_key et) key)

  -- The callback goes over the whole block, and the last match stays.
  unfoldable pub find_compressed : Node E → K → Option E
  find_compressed b key = iterate_seq (λ ret et. if matches key et then some et else ret) b none

  unfoldable pub find : Node E → K → Option E
  find empty key = none
  find (compressed es) key = find_compressed (compressed es) key
  find (regular s l e r) key =
      let on_left = find l key in
      let on_right = find r key in
      if comp key (get_key e) then on_left else if comp (get_key e) key then on_right else some e

  -- `find` of an entry encoder on a block (`diffencoded_entry_encoder`): the walk stops at a match.
  unfoldable pub find_in_block : Node E → K → Option E
  find_in_block b key =
      (iterate_cond (λ ret et. if matches key et then (false, some et) else (true, ret)) b none).1

  unfoldable pub find2 : Node E → K → Option E
  find2 empty key = none
  find2 (compressed es) key = find_in_block (compressed es) key
  find2 (regular s l e r) key =
      let on_left = find2 l key in
      let on_right = find2 r key in
      if comp key (get_key e) then on_left else if comp (get_key e) key then on_right else some e

  unfoldable pub rank : Node E → K → ℕ → ℕ
  rank empty key sum = sum
  rank (compressed es) key sum =
      iterate_seq (λ sum et. if comp (get_key et) key then sum + 1 else sum) (compressed es) sum
  rank (regular s l e r) key sum =
      let on_left = rank l key sum in
      let on_right = rank r key (sum + size l + 1) in
      if comp (get_key e) key
      then on_right
      else if not (comp key (get_key e))
      then sum + size l
      else on_left
