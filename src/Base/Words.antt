-- ===== src/Base/Words.antt =====
-- Unsigned 64-bit arithmetic, with its wrap-around written out.
use Prim.Native.Nat.{ℕ, ◌+◌, ◌-◌, ◌%◌, ◌^◌, ◌≤◌, ◌<◌}
use mathlib.Core.Path.{◌≡◌}
use native.Mathlib.Omega.{arith}

abbrev pub u64 : ℕ
u64 = 2 ^ 64

-- a + b and a - b on uint64. `-` on ℕ stops at 0, so the modulus is added first.
unfoldable pub add64 : ℕ → ℕ → ℕ
add64 a b = (a + b) % u64

unfoldable pub sub64 : ℕ → ℕ → ℕ
sub64 a b = (a + u64 - b) % u64

pub sub64_exact : (a b : ℕ) → b ≤ a → a < u64 → sub64 a b ≡ a - b
unfolding sub64
sub64_exact a b h k = omega arith

pub sub64_wraps : (a b : ℕ) → a < b → b < u64 → sub64 a b ≡ a + u64 - b
unfolding sub64
sub64_wraps a b h k = omega arith
