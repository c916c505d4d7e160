-- ===== src/Aug/Sums/Select.antt =====
-- `aug_select` finds the first entry that fails a test.
use cpam.Base.{
  ◌≡◌, refl, sym, ap, ◌∙◌, Bool, true, false, not, ◌&&◌, Option, none, some, List, [], ◌∷◌, ◌++◌,
  if◌then◌else◌, arith, Bool-cases, inl, inr,
}
use cpam.Node.{decode_cond}
use cpam.Aug.{AugNode, empty, regular, compressed, Aug, iterate_cond}
use cpam.Aug.Cached.{IsMonoid, IsCached, entries, sum, aug_val-eq_sum}
use cpam.Aug.Sums.{aug_select}
use cpam.Entry.Sorted.{or_else}

module _ {ℓ ν} {E : Type ℓ} {M : Type ν} (aug : Aug E M) (monoid : IsMonoid aug) (f : M → Bool)
    (f-empty : f (aug.get_empty) ≡ true)
    (f-combine : (a b : M) → f (aug.combine a b) ≡ f a && f b) where
  open aug use {from_entry}

  -- The first entry that fails.
  abbrev pub first_failing : List E → Option E
  first_failing [] = none
  first_failing (e ∷ es) = let rest = first_failing es in if f (from_entry e) then rest else some e

  first_failing-append :
      (xs ys : List E) → first_failing (xs ++ ys) ≡ or_else (first_failing xs) (first_failing ys)
  first_failing-append [] ys = refl
  first_failing-append (x ∷ xs) ys = elim (Bool-cases (f (from_entry x))) [
    | inl passes ↦ rw passes (first_failing-append xs ys)
    | inr fails ↦ rw fails refl
  ]

  -- The sum passes where every entry does.
  sum-passes : (xs : List E) → f (sum aug xs) ≡ true → first_failing xs ≡ none
  sum-passes [] h = refl
  sum-passes (x ∷ xs) h = ground (arith, f-combine (from_entry x) (sum aug xs), sum-passes xs)

  sum-fails :
      (xs ys : List E) → f (sum aug xs) ≡ false → first_failing (xs ++ ys) ≡ first_failing xs
  sum-fails [] ys h = absurd (ground (arith, f-empty))
  sum-fails (x ∷ xs) ys h = ground (arith, f-combine (from_entry x) (sum aug xs), sum-fails xs ys)

  decode_cond-select :
      (es : List E)
      → (decode_cond
          (λ ret et. if not (f (from_entry et)) then (false, some et) else (true, ret))
          es
          none).1
        ≡ first_failing es
  unfolding decode_cond
  decode_cond-select [] = refl
  decode_cond-select (e ∷ es) = ground (arith, decode_cond-select es)

  -- For a tree with right sums in a monoid and a test that the empty sum passes and that a combined
  -- sum passes just when both its parts do: `aug_select` returns the first entry, from left to
  -- right, whose own value fails the test, or nothing where all pass.
  pub aug_select-eq_first_failing :
      (t : AugNode E M) → IsCached aug t → aug_select aug t f ≡ first_failing (entries t)
  unfolding aug_select iterate_cond
  aug_select-eq_first_failing empty h = refl
  aug_select-eq_first_failing (compressed av es) h = decode_cond-select es
  aug_select-eq_first_failing (regular s l e av r) (hl, hr, h) =
      rw (aug_val-eq_sum aug monoid l hl) (elim (Bool-cases (f (sum aug (entries l)))) [
        | inl pass ↦ rw pass (
            rw (first_failing-append (entries l) (e ∷ entries r), sum-passes (entries l) pass)
              (ap (λ rest. if f (from_entry e) then rest else some e)
                (aug_select-eq_first_failing r hr)))
        | inr fail ↦
            rw fail
              (aug_select-eq_first_failing l hl ∙ sym (sum-fails (entries l) (e ∷ entries r) fail))
      ])
