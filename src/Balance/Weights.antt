-- ===== src/Balance/Weights.antt =====
-- The arithmetic of rotations on weights, with alpha = 29 / 100.
use cpam.Base.{ℕ, ◌+◌, ◌*◌, ◌<◌, ◌≤◌, ◌≡◌, arith}

-- Neither is too heavy for the other.
pub record IsEven (a b : ℕ) : Type 0 where
  pub left_light : 29 * a ≤ 71 * b
  pub right_light : 29 * b ≤ 71 * a

pub IsEven-sym : (a b : ℕ) → IsEven a b → IsEven b a
IsEven-sym a b h = record { left_light = h.right_light; right_light = h.left_light }

-- A tree of weight w, beside one of weight l, that came from one of weight old, not too heavy for l, with
-- as much as `more` joined to it, where `more` was too light for the whole.
pub record IsOutgrown (l w : ℕ) : Type 0 where
  pub old : ℕ
  pub more : ℕ
  pub whole : w ≡ old + more
  pub old_light : 29 * old ≤ 71 * l
  pub more_light : 71 * more < 29 * (l + old)

-- A single rotation, where the inner part is small.
pub single_inner :
    (l a c : ℕ)
    → IsOutgrown l (a + c)
    → 71 * l < 29 * (a + c)
    → IsEven a c
    → 71 * a ≤ 42 * (a + c)
    → IsEven l a
single_inner l a c g heavy even small = record {
  left_light = omega (arith, even.right_light, even.left_light);
  right_light =
      omega (arith, g.whole, g.old_light, g.more_light, even.right_light, even.left_light);
}

pub single_outer :
    (l a c : ℕ) → 71 * l < 29 * (a + c) → IsEven a c → 71 * a ≤ 42 * (a + c) → IsEven (l + a) c
single_outer l a c heavy even small = record {
  left_light = omega (arith, even.right_light, even.left_light);
  right_light = omega (arith, even.right_light, even.left_light);
}

-- A double rotation, where the inner part a + b is great.
module _ (l a b c : ℕ) (g : IsOutgrown l (a + b + c)) (heavy : 71 * l < 29 * (a + b + c))
    (outer : IsEven (a + b) c) (inner : IsEven a b) (great : 42 * (a + b + c) < 71 * (a + b)) where
  pub double_left : IsEven l a
  double_left = record {
    left_light =
        omega (arith, outer.left_light, outer.right_light, inner.left_light, inner.right_light);
    right_light = omega (
      arith, g.whole, g.old_light, g.more_light, outer.left_light, outer.right_light,
      inner.left_light, inner.right_light,
    );
  }

  pub double_right : IsEven b c
  double_right = record {
    left_light =
        omega (arith, outer.left_light, outer.right_light, inner.left_light, inner.right_light);
    right_light =
        omega (arith, outer.left_light, outer.right_light, inner.left_light, inner.right_light);
  }

  pub double_root : IsEven (l + a) (b + c)
  double_root = record {
    left_light =
        omega (arith, outer.left_light, outer.right_light, inner.left_light, inner.right_light);
    right_light = omega (
      arith, g.whole, g.old_light, g.more_light, outer.left_light, outer.right_light,
      inner.left_light, inner.right_light,
    );
  }
