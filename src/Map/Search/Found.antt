-- ===== src/Map/Search/Found.antt =====
-- `find` and `find2` yield the entry of a key; `rank` counts the smaller keys.
use cpam.Base.{
  ℕ, suc, ◌+◌, ◌<◌, ◌≡◌, refl, sym, ap, ap₂, ◌∙◌, true, false, Option, none, some, List, [], ◌∷◌,
  ◌++◌, if◌then◌else◌, arith, length, length-append, u32_mod,
}
use cpam.Node.{Node, empty, regular, compressed, size, decode, decode_cond}
use cpam.Node.Iterate.{entries, iterate_seq-entries, iterate_cond-entries}
use cpam.Node.Contents.{IsSized, size-IsSized}
use cpam.Entry.{Entry}
use cpam.Entry.Sorted.{
  lookup_at, or_else, Below, Above, IsSorted, lookup, IsSorted-split, lookup-middle, comp_asym,
  lookup-past_first,
}
use cpam.Map.Search.{matches, find_compressed, find, find_in_block, find2, rank}

or_else-none {ℓ} : {E : Type ℓ} (o : Option E) → or_else o none ≡ o
or_else-none none = refl
or_else-none (some e) = refl

module _ {ℓ κ μ} {E : Type ℓ} {K : Type κ} {V : Type μ} (ent : Entry E K V) where
  open ent use {get_key, comp, comp_irrefl, comp_trans, comp_total}

  decode-find :
      (q : K) (es : List E) (ret : Option E)
      → IsSorted ent es
      → decode (λ ret et. if matches ent q et then some et else ret) es ret
        ≡ or_else (lookup ent q es) ret
  unfolding decode
  decode-find q [] ret s = refl
  decode-find q (e ∷ es) ret (above, s) = ground (
    arith,
    decode-find q es (some e) s,
    decode-find q es ret s,
    lookup-past_first ent (get_key e) q es above,
  )

  find_compressed-eq_lookup :
      (es : List E) (q : K)
      → IsSorted ent es
      → find_compressed ent (compressed es) q ≡ lookup ent q es
  unfolding find_compressed
  find_compressed-eq_lookup es q s =
      iterate_seq-entries (λ ret et. if matches ent q et then some et else ret) (compressed es) none
      ∙ decode-find q es none s
      ∙ or_else-none (lookup ent q es)

  -- In a tree with its entries in the order of their keys `find` returns the entry that a search of
  -- the list of all entries finds, or nothing where that finds nothing.
  pub find-eq_lookup :
      (t : Node E) (q : K) → IsSorted ent (entries t) → find ent t q ≡ lookup ent q (entries t)
  unfolding find
  find-eq_lookup empty q s = refl
  find-eq_lookup (compressed es) q s = find_compressed-eq_lookup es q s
  find-eq_lookup (regular n l e r) q s =
      let j = IsSorted-split ent (entries l) e (entries r) s in
      ap₂ (lookup_at ent q e) (find-eq_lookup l q j.left_sorted) (find-eq_lookup r q j.right_sorted)
      ∙ sym (lookup-middle ent q (entries l) e (entries r) j.left_below j.right_above)

  decode_cond-find :
      (q : K) (es : List E)
      → (decode_cond
          (λ ret et. if matches ent q et then (false, some et) else (true, ret))
          es
          none).1
        ≡ lookup ent q es
  unfolding decode_cond
  decode_cond-find q [] = refl
  decode_cond-find q (e ∷ es) = ground (arith, decode_cond-find q es)

  -- In a tree with its entries in the order of their keys `find2`, which stops at a match in a
  -- block, returns the entry that a search of the list of all entries finds, or nothing where that
  -- finds nothing.
  pub find2-eq_lookup :
      (t : Node E) (q : K) → IsSorted ent (entries t) → find2 ent t q ≡ lookup ent q (entries t)
  unfolding find2 find_in_block
  find2-eq_lookup empty q s = refl
  find2-eq_lookup (compressed es) q s =
      ap (λ p. p.1)
        (iterate_cond-entries (λ ret et. if matches ent q et then (false, some et) else (true, ret))
          (compressed es) none)
      ∙ decode_cond-find q es
  find2-eq_lookup (regular n l e r) q s =
      let j = IsSorted-split ent (entries l) e (entries r) s in
      ap₂ (lookup_at ent q e) (find2-eq_lookup l q j.left_sorted)
        (find2-eq_lookup r q j.right_sorted)
      ∙ sym (lookup-middle ent q (entries l) e (entries r) j.left_below j.right_above)

  -- The number of entries with a smaller key.
  abbrev pub count_below : K → List E → ℕ
  count_below q [] = 0
  count_below q (e ∷ es) =
      let rest = count_below q es in if comp (get_key e) q then suc rest else rest

  count_below-append :
      (q : K) (xs ys : List E) → count_below q (xs ++ ys) ≡ count_below q xs + count_below q ys
  count_below-append q [] ys = omega arith
  count_below-append q (x ∷ xs) ys = ground (arith, count_below-append q xs ys)

  count_below-all :
      (k q : K) (xs : List E) → Below ent k xs → comp q k ≡ false → count_below q xs ≡ length xs
  count_below-all k q [] b h = refl
  count_below-all k q (x ∷ xs) (p, b) h =
      ground
        (arith, count_below-all k q xs b h, comp_trans q (get_key x) k, comp_total q (get_key x))

  count_below-none :
      (k q : K) (xs : List E) → Above ent k xs → comp k q ≡ false → count_below q xs ≡ 0
  count_below-none k q [] a h = refl
  count_below-none k q (x ∷ xs) (p, a) h =
      ground (arith, count_below-none k q xs a h, comp_trans k (get_key x) q)

  decode-rank :
      (q : K) (es : List E) (sum : ℕ)
      → decode (λ sum et. if comp (get_key et) q then sum + 1 else sum) es sum
        ≡ sum + count_below q es
  unfolding decode
  decode-rank q [] sum = omega arith
  decode-rank q (e ∷ es) sum = ground (arith, decode-rank q es (sum + 1), decode-rank q es sum)

  -- In a tree with right size fields, its entries in the order of their keys and fewer than 2 ^ 32
  -- of them, `rank` adds to `sum` the number of entries with a smaller key.
  pub rank-eq_count_below :
      (t : Node E) (q : K) (sum : ℕ)
      → IsSized t
      → IsSorted ent (entries t)
      → length (entries t) < u32_mod
      → rank ent t q sum ≡ sum + count_below q (entries t)
  unfolding rank
  rank-eq_count_below empty q sum h s small = omega arith
  rank-eq_count_below (compressed es) q sum h s small =
      iterate_seq-entries (λ sum et. if comp (get_key et) q then sum + 1 else sum) (compressed es)
        sum
      ∙ decode-rank q es sum
  rank-eq_count_below (regular n l e r) q sum h s small =
      let j = IsSorted-split ent (entries l) e (entries r) s in
      let len = length-append (entries l) (e ∷ entries r) in
      let k = get_key e in
      let exact : size l ≡ length (entries l) = omega (arith, len, size-IsSized l h.0) in
      ground (
        arith,
        exact,
        count_below-append q (entries l) (e ∷ entries r),
        rank-eq_count_below r q (sum + size l + 1) h.1 j.right_sorted (omega (arith, len)),
        rank-eq_count_below l q sum h.0 j.left_sorted (omega (arith, len)),
        count_below-all k q (entries l) j.left_below,
        count_below-none k q (entries r) j.right_above,
        comp_asym ent k q,
      )
