-- ===== src/Search/Agree.antt =====
-- The binary search finds what the linear search finds.
use cpam.Base.{
  ℕ, zero, suc, ◌+◌, ◌/◌, ◌≤◌, ◌≡◌, refl, sym, ap, ◌∙◌, Bool, true, false, List, [], ◌∷◌, ◌++◌, ltb,
  if-split, not, length, length-append, with_cut-cut, All, arith,
}
use cpam.Search.{linear_search, binary_search_loop, binary_search}

module _ {ℓ} {A : Type ℓ} (less : A → Bool) where
  -- Behind an element that is not less there is none that is.
  abbrev pub IsPartitioned : List A → Type 0
  IsPartitioned [] = Unit
  IsPartitioned (x ∷ xs) = (less x ≡ false → All (λ y. less y ≡ false) xs) × IsPartitioned xs

  All-behind :
      (xs : List A) (x : A) (ys : List A)
      → All (λ y. less y ≡ false) (xs ++ x ∷ ys)
      → less x ≡ false
  All-behind [] x ys h = h.0
  All-behind (y ∷ xs) x ys h = All-behind xs x ys h.1

  IsPartitioned-left : (xs ys : List A) → IsPartitioned (xs ++ ys) → IsPartitioned xs
  IsPartitioned-left [] ys h = tt
  IsPartitioned-left (x ∷ xs) ys (p, h) = (λ e. left_all xs ys (p e), IsPartitioned-left xs ys h)
    where
      left_all :
          (xs ys : List A) → All (λ y. less y ≡ false) (xs ++ ys) → All (λ y. less y ≡ false) xs
      left_all [] ys h = tt
      left_all (x ∷ xs) ys (p, h) = (p, left_all xs ys h)

  IsPartitioned-right : (xs ys : List A) → IsPartitioned (xs ++ ys) → IsPartitioned ys
  IsPartitioned-right [] ys h = h
  IsPartitioned-right (x ∷ xs) ys (p, h) = IsPartitioned-right xs ys h

  linear_search-stop :
      (xs : List A) (x : A) (ys : List A)
      → less x ≡ false
      → linear_search less (xs ++ x ∷ ys) ≡ linear_search less xs
  unfolding linear_search
  linear_search-stop [] x ys h = ground arith
  linear_search-stop (y ∷ xs) x ys h = ground (arith, linear_search-stop xs x ys h)

  linear_search-pass :
      (xs : List A) (x : A) (ys : List A)
      → IsPartitioned (xs ++ x ∷ ys)
      → less x ≡ true
      → linear_search less (xs ++ x ∷ ys) ≡ length xs + 1 + linear_search less ys
  unfolding linear_search
  linear_search-pass [] x ys p h = ground arith
  linear_search-pass (y ∷ xs) x ys (p, p') h =
      if-split (λ n. n ≡ suc (length xs) + 1 + linear_search less ys) (not (less y))
        (λ not_less.
          cc (let x_not : less x ≡ false = All-behind xs x ys (p (ground arith)) in x_not))
        (λ passed. ground (arith, linear_search-pass xs x ys p' h))

  binary_search_loop-eq :
      (base fuel : ℕ) (xs : List A)
      → length xs ≤ fuel
      → IsPartitioned xs
      → binary_search_loop less base fuel xs ≡ linear_search less xs
  unfolding binary_search_loop
  binary_search_loop-eq base zero xs h p = refl
  binary_search_loop-eq base (suc fuel) xs h p =
      let P = λ (n : ℕ). n ≡ linear_search less xs in
      if-split P (ltb base (length xs))
        (λ long. with_cut-cut P 0 _ (length xs / 2) xs (ground arith) λ front x back whole lf lb.
          let parted : IsPartitioned (front ++ x ∷ back) = rw (← whole) p in
          let fewer : length xs ≡ length front + suc (length back) =
            ap length whole ∙ length-append front (x ∷ back) in
          if-split P (not (less x))
            (λ stops.
              binary_search_loop-eq base fuel front (omega (arith, fewer))
                (IsPartitioned-left front (x ∷ back) parted)
              ∙ sym (linear_search-stop front x back (ground arith))
              ∙ ap (linear_search less) (sym whole))
            (λ passes.
              ap (λ n. length front + 1 + n)
                (binary_search_loop-eq base fuel back (omega (arith, fewer))
                  (IsPartitioned-right front (x ∷ back) parted).1)
              ∙ sym (linear_search-pass front x back parted (ground arith))
              ∙ ap (linear_search less) (sym whole)))
        (λ _. refl)

  -- On an array in which no element that is less stands behind one that is not, `PAM_binary_search`
  -- returns the position that `PAM_linear_search` returns, whatever the base size.
  pub binary_search-eq_linear_search :
      (base : ℕ) (xs : List A)
      → IsPartitioned xs
      → binary_search less base xs ≡ linear_search less xs
  unfolding binary_search
  binary_search-eq_linear_search base xs p =
      binary_search_loop-eq base (length xs) xs (omega arith) p
