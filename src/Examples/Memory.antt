-- ===== src/Examples/Memory.antt =====
-- The theorems on reference counts at small heaps.
use cpam.Base.{ℕ, zero, suc, ◌+◌, ◌<◌, ◌≡◌, refl, ap, none, some, [], ◌∷◌, arith}
use mathlib.Core.Option.{some-injective}
use cpam.Gc.{Cell, regular_node, compressed_node, Heap, load, decrement_recursive}
use cpam.Gc.Cells.{points, count_of, held_in}
use cpam.Gc.Counts.{IsCounted, IsReleased, decrement_recursive-IsReleased}

-- A root with a block on its left. One reference to the root is owned, or two are.
abbrev lone : Heap ℕ
lone = some (1, regular_node 3 (some 1) 7 none) ∷ some (1, compressed_node (3 ∷ 4 ∷ [])) ∷ []

abbrev shared : Heap ℕ
shared = some (2, regular_node 3 (some 1) 7 none) ∷ some (1, compressed_node (3 ∷ 4 ∷ [])) ∷ []

-- The counts of a heap of two nodes.
two_counts :
    (a b : ℕ) (c d : Cell ℕ)
    → 0 < a
    → a < 3
    → 0 < b
    → b < 3
    → (q r : ℕ) (e : Cell ℕ) → load (some (a, c) ∷ some (b, d) ∷ []) q ≡ some (r, e)
    → (0 < r) × (r < 3)
two_counts a b c d ha ha' hb hb' zero r e now =
    let same : a ≡ r = ap (λ x. x.0) (some-injective _ _ now) in (omega arith, omega arith)
two_counts a b c d ha ha' hb hb' (suc zero) r e now =
    let same : b ≡ r = ap (λ x. x.0) (some-injective _ _ now) in (omega arith, omega arith)
two_counts a b c d ha ha' hb hb' (suc (suc q)) r e now = absurd (cc)

lone-counted : (q : ℕ) → count_of (load lone q) ≡ points (some 0) q + 0 + held_in lone q
lone-counted zero = refl
lone-counted (suc zero) = refl
lone-counted (suc (suc q)) = ground arith

lone-low : (q r : ℕ) (c : Cell ℕ) → load lone q ≡ some (r, c) → (0 < r) × (r < 3)
lone-low = two_counts 1 1 _ _ (omega arith) (omega arith) (omega arith) (omega arith)

lone-IsCounted : IsCounted (λ q. points (some 0) q + 0) lone
lone-IsCounted = record {
  counted = lone-counted;
  in_use = λ q r c now. let (positive, low) = lone-low q r c now in (positive, omega arith);
}

decrement_recursive_example : IsReleased (λ q. 0) lone (decrement_recursive 3 lone (some 0))
decrement_recursive_example =
    decrement_recursive-IsReleased 3 (λ q. 0) lone (some 0) (omega arith) lone-IsCounted
