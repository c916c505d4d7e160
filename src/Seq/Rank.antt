-- ===== src/Seq/Rank.antt =====
-- include/cpam/sequence_ops.h: access by position. `rank - left_size - 1` is computed on size_t, and
-- wraps around where it is below zero.
pub mod Select
pub mod Take
use cpam.Base.{
  ℕ, suc, ◌+◌, ◌-◌, ◌*◌, Bool, true, false, ◌&&◌, Option, none, some, List, [], ◌∷◌, ltb, leb, ◌==◌,
  if◌then◌else◌, length, sub64,
}
use cpam.Node.{Node, empty, regular, compressed, size, iterate_seq, iterate_cond, push}
use cpam.Seq.{build_tree, join, fields, with_parts}

module _ {ℓ} {A : Type ℓ} where
  -- The callback of `select_compressed`: its state is the counter i and the result.
  abbrev pub select_step : ℕ → ℕ × Option A → A → Bool × (ℕ × Option A)
  select_step rank (i, ret) e = if i == rank then (false, (i, some e)) else (true, (i + 1, ret))

  unfoldable pub select_compressed : Node A → ℕ → Option A
  select_compressed a rank = (iterate_cond (select_step rank) a (0, none)).1.1

  unfoldable pub select : Node A → ℕ → Option A
  select empty rank = none
  select (compressed es) rank = select_compressed (compressed es) rank
  select (regular s l e r) rank =
      let left_size = size l in
      let on_right = select r (rank - left_size - 1) in
      let on_left = select l rank in
      if ltb left_size rank then on_right else if ltb rank left_size then on_left else some e

  -- The first tree on the way down that the range from `left` to `right` may straddle, with the
  -- range counted from its first entry.
  unfoldable pub subseq_root : Node A → ℕ → ℕ → Node A × ℕ × ℕ
  subseq_root empty left right = (empty, left, right)
  subseq_root (compressed es) left right = (compressed es, left, right)
  subseq_root (regular s l e r) left right =
      let left_size = size l in
      let on_left = subseq_root l left right in
      let on_right = subseq_root r (left - left_size - 1) (sub64 (sub64 right left_size) 1) in
      if ltb right left_size
      then on_left
      else if ltb (left_size + 1) left
      then on_right
      else (regular s l e r, left, right)

  -- The callback of a copy under a test of the position: its state is the position and the buffer.
  abbrev pub copy_if : (ℕ → Bool) → ℕ × List A → A → ℕ × List A
  copy_if test (i, buffer) e = (i + 1, (if test i then push buffer e else buffer))

module _ {ℓ} {A : Type ℓ} (B : ℕ) where
  -- `take_compressed`: the copy stops once `offset`, the length of the buffer, is `rank`.
  unfoldable pub take_compressed : Node A → ℕ → Node A
  take_compressed a rank =
      build_tree B
        (iterate_seq (λ buffer e. if ltb (length buffer) rank then push buffer e else buffer) a [])

  unfoldable pub take : Node A → ℕ → Node A
  take empty rank = empty
  take (compressed es) rank = take_compressed (compressed es) rank
  take (regular s l e r) rank =
      let left_size = size l in
      let on_left = take l rank in
      let rest = join B l e (take r (sub64 (sub64 rank left_size) 1)) in
      if ltb rank left_size then on_left else rest

  -- `entry_bc` with the tests of the position that `suffix` and `subseq` pass.
  unfoldable pub entry_bc : Node A → (ℕ → Bool) → Node A
  entry_bc r test = build_tree B (iterate_seq (copy_if test) r (0, [])).1

  unfoldable pub suffix : Node A → ℕ → Node A
  suffix empty rank = empty
  suffix (compressed es) rank = entry_bc (compressed es) (λ i. leb rank i)
  suffix (regular s l e r) rank =
      let left_size = size l in
      let on_right = suffix r (rank - left_size - 1) in
      let rest = join B (suffix l rank) e r in if ltb (left_size + 1) rank then on_right else rest

  -- `subseq`, from the root that `subseq_root` finds.
  unfoldable pub subseq_at : Node A → ℕ → ℕ → Node A
  subseq_at empty low high = empty
  subseq_at (compressed es) low high = entry_bc (compressed es) (λ i. leb low i && leb i high)
  subseq_at (regular s l e r) low high =
      join B (suffix l low) e (take r (sub64 (sub64 high (size l)) 1))

  unfoldable pub subseq : Node A → ℕ → ℕ → Node A
  subseq b low high = let (r, low', high') = subseq_root b low high in subseq_at r low' high'
