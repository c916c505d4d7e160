-- ===== src/Seq/Scan/Indexed.antt =====
-- foreach_index gives each entry its place among all entries.
use cpam.Base.{
  ℕ, ◌+◌, ◌<◌, ◌≤◌, ◌≡◌, refl, ap, ◌∙◌, Option, none, some, List, [], ◌∷◌, ◌++◌, if◌then◌else◌,
  ◌==◌, ltb, length, length-append, Bool-cases, inl, inr, arith, u32_mod,
}
use native.Mathlib.Nat.{mod-eq_of_lt}
use cpam.Node.{Node, empty, regular, compressed, size, iterate_seq, decode}
use cpam.Node.Iterate.{entries}
use cpam.Node.Contents.{IsSized, size-IsSized}
use cpam.Entry.Sorted.{or_else}
use cpam.Seq.Scan.{indexed_step, foreach_index}

next : (start i : ℕ) → start + (i + 1) ≡ start + i + 1
next start i = omega arith

module _ {ℓ} {A : Type ℓ} where
  -- `out[i] = a`, as the wrappers of foreach_index do.
  abbrev pub write : (ℕ → Option A) → A → ℕ → ℕ → Option A
  write out a i q = if i == q then some a else out q

  -- The entry of a list at a place, counted from start.
  abbrev pub read_from : ℕ → List A → ℕ → Option A
  read_from start [] q = none
  read_from start (x ∷ xs) q = if start == q then some x else read_from (start + 1) xs q

  read_from-before : (start : ℕ) (xs : List A) (q : ℕ) → q < start → read_from start xs q ≡ none
  read_from-before start [] q h = refl
  read_from-before start (x ∷ xs) q h = ground (arith, read_from-before (start + 1) xs q)

  read_from-past :
      (start : ℕ) (xs : List A) (q : ℕ) → start + length xs ≤ q → read_from start xs q ≡ none
  read_from-past start [] q h = refl
  read_from-past start (x ∷ xs) q h = ground (arith, read_from-past (start + 1) xs q)

  read_from-append :
      (start : ℕ) (xs ys : List A) (q : ℕ)
      → read_from start (xs ++ ys) q
        ≡ or_else (read_from start xs q) (read_from (start + length xs) ys q)
  read_from-append start [] ys q = ap (λ n. read_from n ys q) (omega arith)
  read_from-append start (x ∷ xs) ys q = elim (Bool-cases (start == q)) [
    | inl here ↦ rw here refl
    | inr other ↦ rw other (
        read_from-append (start + 1) xs ys q
        ∙ ap (λ n. or_else (read_from (start + 1) xs q) (read_from n ys q)) (omega arith))
  ]

  skip_none : (o x : Option A) → or_else o x ≡ or_else (or_else o none) x
  skip_none none x = refl
  skip_none (some a) x = refl

  -- A root at `place` with the entries before it from start on, whatever is written first.
  around_root :
      (start : ℕ) (xs : List A) (e : A) (ys : List A) (out : ℕ → Option A) (q : ℕ)
      → or_else
          (read_from (start + length xs + 1) ys q)
          (or_else (read_from start xs q) (write out e (start + length xs) q))
        ≡ or_else
            (or_else (read_from start xs q) (read_from (start + length xs) (e ∷ ys) q))
            (out q)
  around_root start xs e ys out q =
      let place = start + length xs in
      elim (Bool-cases (place == q)) [
        | inl here ↦
            rw
              (
                here,
                read_from-past start xs q (ground arith),
                read_from-before (place + 1) ys q (ground arith),
              )
              refl
        | inr other ↦ elim (Bool-cases (ltb q place)) [
          | inl before ↦
              rw (other, read_from-before (place + 1) ys q (ground arith))
                (skip_none (read_from start xs q) (out q))
          | inr behind ↦ rw (other, read_from-past start xs q (ground arith)) refl
        ]
      ]

  decode-read_from :
      (start i : ℕ) (es : List A) (out : ℕ → Option A) (q : ℕ)
      → (decode {S = ℕ × (ℕ → Option A)} (indexed_step write start) es (i, out)).1 q
        ≡ or_else (read_from (start + i) es q) (out q)
  unfolding decode
  decode-read_from start i [] out q = refl
  decode-read_from start i (x ∷ xs) out q =
      decode-read_from start (i + 1) xs (write out x (start + i)) q
      ∙ ap (λ n. or_else (read_from n xs q) (write out x (start + i) q)) (next start i)
      ∙ elim (Bool-cases (start + i == q)) [
        | inl here ↦ rw (here, read_from-before (start + i + 1) xs q (ground arith)) refl
        | inr other ↦ rw other refl
      ]

  -- In a tree with right size fields and fewer than 2 ^ 32 entries `foreach_index`, with a callback
  -- that writes each entry to the place of its index, leaves each entry at its place in the list of
  -- all entries, counted from start, and all other places as they were.
  pub foreach_index-read_from :
      (t : Node A) (start : ℕ) (out : ℕ → Option A) (q : ℕ)
      → IsSized t
      → length (entries t) < u32_mod
      → foreach_index write t start out q ≡ or_else (read_from start (entries t) q) (out q)
  unfolding foreach_index iterate_seq
  foreach_index-read_from empty start out q h small = refl
  foreach_index-read_from (compressed es) start out q h small =
      decode-read_from start 0 es out q ∙ ap (λ n. or_else (read_from n es q) (out q)) (omega arith)
  foreach_index-read_from (regular n l e r) start out q (hl, hr, h) small =
      let total = length-append (entries l) (e ∷ entries r) in
      let lsize : size l ≡ length (entries l) =
        size-IsSized l hl ∙ mod-eq_of_lt (omega (arith, total)) in
      let place = start + length (entries l) in
      let walked : foreach_index write (regular n l e r) start out q
          ≡ or_else (read_from (place + 1) (entries r) q)
              (or_else (read_from start (entries l) q) (write out e place q)) =
        rw lsize (
          foreach_index-read_from r (place + 1) _ q hr (omega (arith, total))
          ∙ ap (or_else (read_from (place + 1) (entries r) q))
              (foreach_index-read_from l start _ q hl (omega (arith, total)))) in
      walked
      ∙ rw (read_from-append start (entries l) (e ∷ entries r) q)
          (around_root start (entries l) e (entries r) out q)
