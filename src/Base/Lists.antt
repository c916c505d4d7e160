-- ===== src/Base/Lists.antt =====
-- Lists measured and indexed by native numbers, under the library's names.
use Prim.Native.Nat.{ℕ, zero, suc, ◌+◌, ◌-◌, ◌≤◌, ◌<◌, min}
use mathlib.Core.Path.{◌≡◌, refl, ap, ◌∙◌}
use mathlib.Core.List.{List, [], ◌∷◌, ◌++◌}
use mathlib.Core.Option.{Option, none, some}
use native.Mathlib.Omega.{arith}

module _ {ℓ} {A : Type ℓ} where
  abbrev pub length : List A → ℕ
  length [] = 0
  length (x ∷ xs) = suc (length xs)

  abbrev pub get_elem? : List A → ℕ → Option A
  get_elem? [] i = none
  get_elem? (x ∷ xs) zero = some x
  get_elem? (x ∷ xs) (suc i) = get_elem? xs i

  abbrev pub take : ℕ → List A → List A
  take zero xs = []
  take (suc n) [] = []
  take (suc n) (x ∷ xs) = x ∷ take n xs

  abbrev pub drop : ℕ → List A → List A
  drop zero xs = xs
  drop (suc n) [] = []
  drop (suc n) (x ∷ xs) = drop n xs

  abbrev pub All {κ} : (A → Type κ) → List A → Type κ
  All P [] = Unit {κ}
  All P (x ∷ xs) = P x × All P xs

  pub length-append : (xs ys : List A) → length (xs ++ ys) ≡ length xs + length ys
  length-append [] ys = omega arith
  length-append (x ∷ xs) ys = omega (arith, length-append xs ys)

  pub take-append-drop : (n : ℕ) (xs : List A) → take n xs ++ drop n xs ≡ xs
  take-append-drop zero xs = refl
  take-append-drop (suc n) [] = refl
  take-append-drop (suc n) (x ∷ xs) = ap (λ r. x ∷ r) (take-append-drop n xs)

  pub take-all : (n : ℕ) (xs : List A) → length xs ≤ n → take n xs ≡ xs
  take-all zero [] h = refl
  take-all zero (x ∷ xs) h = absurd (omega arith)
  take-all (suc n) [] h = refl
  take-all (suc n) (x ∷ xs) h = ap (λ r. x ∷ r) (take-all n xs (omega arith))

  pub length-take : (n : ℕ) (xs : List A) → length (take n xs) ≡ min n (length xs)
  length-take zero xs = omega arith
  length-take (suc n) [] = omega arith
  length-take (suc n) (x ∷ xs) = omega (arith, length-take n xs)

  pub length-drop : (n : ℕ) (xs : List A) → length (drop n xs) ≡ length xs - n
  length-drop zero xs = omega arith
  length-drop (suc n) [] = omega arith
  length-drop (suc n) (x ∷ xs) = omega (arith, length-drop n xs)

  -- The element at an index with what stands before it and behind it, `none` past the end: how the
  -- code cuts an array A at A[i] into A and A + i + 1.
  unfoldable pub cut : ℕ → List A → Option (List A × A × List A)
  cut i [] = none
  cut zero (x ∷ xs) = some ([], x, xs)
  cut (suc i) (x ∷ xs) = elim (cut i xs) [
    | none ↦ none
    | some (before, y, after) ↦ some (x ∷ before, y, after)
  ]

  -- Inside the array the cut is there, and its parts make up the array.
  pub record IsCut (i : ℕ) (xs : List A) : Type ℓ where
    pub before : List A
    pub at : A
    pub after : List A
    pub found : cut i xs ≡ some (before, at, after)
    pub whole : xs ≡ before ++ at ∷ after
    pub length_before : length before ≡ i
    pub length_after : length after + suc i ≡ length xs

  pub IsCut-of_some : (i : ℕ) (xs : List A) → i < length xs → IsCut i xs
  unfolding cut
  IsCut-of_some i [] h = absurd (omega arith)
  IsCut-of_some zero (x ∷ xs) h = record {
    before = [];
    at = x;
    after = xs;
    found = refl;
    whole = refl;
    length_before = refl;
    length_after = omega arith;
  }
  IsCut-of_some (suc i) (x ∷ xs) h =
      let c = IsCut-of_some i xs (omega arith) in
      record {
        before = x ∷ c.before;
        at = c.at;
        after = c.after;
        found = rw (c.found);
        whole = ap (λ r. x ∷ r) (c.whole);
        length_before = ap suc (c.length_before);
        length_after = omega (arith, c.length_after);
      }

  -- What is done with the parts of a cut, and with an index past the end.
  abbrev pub with_cut {κ} :
      {B : Type κ} → B → (List A → A → List A → B) → Option (List A × A × List A) → B
  with_cut past f none = past
  with_cut past f (some (front, x, back)) = f front x back

  -- A property of what is done inside the array.
  pub with_cut-cut {κ μ} :
      {B : Type κ} (P : B → Type μ) (past : B) (f : List A → A → List A → B) (i : ℕ) (xs : List A)
      → i < length xs
      → ((front : List A) (x : A) (back : List A)
          → xs ≡ front ++ x ∷ back
          → length front ≡ i
          → length back + suc i ≡ length xs
          → P (f front x back))
      → P (with_cut past f (cut i xs))
  with_cut-cut P past f i xs h each =
      let c = IsCut-of_some i xs h in
      rw (c.found) (each c.before c.at c.after c.whole c.length_before c.length_after)

  pub take-before : (n : ℕ) (xs ys : List A) → n ≤ length xs → take n (xs ++ ys) ≡ take n xs
  take-before zero xs ys h = refl
  take-before (suc n) [] ys h = absurd (omega arith)
  take-before (suc n) (x ∷ xs) ys h = ap (λ r. x ∷ r) (take-before n xs ys (omega arith))

  pub take-behind :
      (n : ℕ) (xs : List A) (y : A) (ys : List A)
      → length xs < n
      → take n (xs ++ y ∷ ys) ≡ xs ++ y ∷ take (n - length xs - 1) ys
  take-behind zero xs y ys h = absurd (omega arith)
  take-behind (suc n) [] y ys h = ap (λ k. y ∷ take k ys) (omega arith)
  take-behind (suc n) (x ∷ xs) y ys h =
      ap (λ r. x ∷ r)
        (take-behind n xs y ys (omega arith) ∙ ap (λ k. xs ++ y ∷ take k ys) (omega arith))

  pub drop-before : (n : ℕ) (xs ys : List A) → n ≤ length xs → drop n (xs ++ ys) ≡ drop n xs ++ ys
  drop-before zero xs ys h = refl
  drop-before (suc n) [] ys h = absurd (omega arith)
  drop-before (suc n) (x ∷ xs) ys h = drop-before n xs ys (omega arith)

  pub drop-behind :
      (n : ℕ) (xs : List A) (y : A) (ys : List A)
      → length xs < n
      → drop n (xs ++ y ∷ ys) ≡ drop (n - length xs - 1) ys
  drop-behind zero xs y ys h = absurd (omega arith)
  drop-behind (suc n) [] y ys h = ap (λ k. drop k ys) (omega arith)
  drop-behind (suc n) (x ∷ xs) y ys h =
      drop-behind n xs y ys (omega arith) ∙ ap (λ k. drop k ys) (omega arith)

  pub drop-all : (n : ℕ) (xs : List A) → length xs ≤ n → drop n xs ≡ []
  drop-all zero [] h = refl
  drop-all zero (x ∷ xs) h = absurd (omega arith)
  drop-all (suc n) [] h = refl
  drop-all (suc n) (x ∷ xs) h = drop-all n xs (omega arith)

  pub take-nil : (n : ℕ) → take n [] ≡ []
  take-nil zero = refl
  take-nil (suc n) = refl

  pub drop-nil : (n : ℕ) → drop n [] ≡ []
  drop-nil zero = refl
  drop-nil (suc n) = refl
