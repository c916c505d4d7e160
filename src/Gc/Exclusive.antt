-- ===== src/Gc/Exclusive.antt =====
-- `copy_if_needed`: a node that may be changed in place.
use cpam.Base.{ℕ, ◌+◌, ◌≡◌, Option, some}
use cpam.Gc.{Ptr, Cell, Heap, load}
use cpam.Gc.Cells.{points}
use cpam.Gc.Counts.{IsCounted}

module _ {ℓ} {E : Type ℓ} where
  -- A node with these contents and no reference but the caller's.
  pub record IsExclusive (owned : ℕ → ℕ) (c : Cell E) (result : Option (Heap E × Ptr))
      : Type ℓ where
    pub after : Heap E
    pub at : ℕ
    pub returned : result ≡ some (after, some at)
    pub good : IsCounted (λ q. points (some at) q + owned q) after
    pub alone : load after at ≡ some (1, c)
