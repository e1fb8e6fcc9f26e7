-- ===== src/Prelude/Words.antt =====
-- Unsigned 64-bit arithmetic, with its wrap-around.
use Prim.Native.Nat.{ℕ, ◌+◌, ◌-◌, ◌%◌, ◌^◌, ◌<◌}
use mathlib.Core.Path.{◌≡◌}
use native.Mathlib.Omega.{arith}

unfoldable pub u64 : ℕ → ℕ
u64 n = n % 2 ^ 64

unfoldable pub sub64 : ℕ → ℕ → ℕ
unfolding u64
sub64 a b = u64 (a + 2 ^ 64 - b)

pub u64-small : (n : ℕ) → n < 2 ^ 64 → u64 n ≡ n
unfolding u64
u64-small n h = omega arith
