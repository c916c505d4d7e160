-- ===== src/Base/Words.antt =====
-- Machine words: `node_size_t` is a 32-bit and `size_t` a 64-bit unsigned integer.
use Prim.Native.Nat.{ℕ, ◌+◌, ◌-◌, ◌%◌, ◌^◌, ◌<◌, ◌≤◌}
use mathlib.Core.Path.{◌≡◌}
use native.Mathlib.Omega.{arith}

abbrev pub u32_mod : ℕ
u32_mod = 2 ^ 32

abbrev pub u64_mod : ℕ
u64_mod = 2 ^ 64

-- a - b on size_t.
abbrev pub sub64 : ℕ → ℕ → ℕ
sub64 a b = (a + u64_mod - b) % u64_mod

pub sub64_le : (a b : ℕ) → a < u64_mod → b ≤ a → sub64 a b ≡ a - b
sub64_le a b ha h = omega arith
