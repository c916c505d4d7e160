-- ===== src/Map/Split.antt =====
-- include/cpam/map_ops.h: split_info and split.
pub mod Halves
use cpam.Base.{ℕ, zero, suc, Option, none, some, length, if◌then◌else◌}
use cpam.Node.{Node, empty}
use cpam.Node.Iterate.{entries}
use cpam.Seq.{with_parts, expose, join}
use cpam.Entry.{Entry}

pub record SplitInfo {ℓ} (E : Type ℓ) : Type ℓ where
  pub l : Node E
  pub mid : Option E
  pub r : Node E

abbrev pub split_empty {ℓ} : {E : Type ℓ} → SplitInfo E
split_empty = record { l = empty; mid = none; r = empty }

module _ {ℓ κ μ} {E : Type ℓ} {K : Type κ} {V : Type μ} (ent : Entry E K V) (B : ℕ) where
  open ent use {get_key, comp}

  -- The two recursive branches of `split`, given what the recursive call yields.
  abbrev pub split_right : SplitInfo E → Node E → E → SplitInfo E
  split_right s lc e = record { l = join B lc e s.l; mid = s.mid; r = s.r }

  abbrev pub split_left : SplitInfo E → E → Node E → SplitInfo E
  split_left s e rc = record { l = s.l; mid = s.mid; r = join B s.r e rc }

  -- On fuel, since a block is made a tree on the way.
  unfoldable pub split_loop : ℕ → Node E → K → SplitInfo E
  split_loop zero a k = split_empty
  split_loop (suc fuel) a k =
      with_parts split_empty
        (λ lc e rc.
          let on_right = split_right (split_loop fuel rc k) lc e in
          let on_left = split_left (split_loop fuel lc k) e rc in
          if comp (get_key e) k
          then on_right
          else if comp k (get_key e)
          then on_left
          else record { l = lc; mid = some e; r = rc })
        (expose B a)

  -- A child has fewer entries than its parent.
  unfoldable pub split : Node E → K → SplitInfo E
  split a k = split_loop (suc (length (entries a))) a k
