-- ===== src/Prelude/Decimal.antt =====
-- Decimal digits of a number, as `%d` prints them.
use Prim.Native.Nat.{ℕ, zero, suc, ◌+◌, ◌/◌, ◌%◌}
use mathlib.Core.List.{[], ◌∷◌, reverse}
use hmlb.Prelude.Tests.{ltb, if◌then◌else◌}
use hmlb.Prelude.Equality.{Text}

-- The last digit first; the fuel is a bound of the number.
unfoldable pub digits_rev : ℕ → ℕ → Text
digits_rev zero n = (48 + n % 10) ∷ []
digits_rev (suc fuel) n =
    let more = (48 + n % 10) ∷ digits_rev fuel (n / 10) in if ltb n 10 then (48 + n) ∷ [] else more

unfoldable pub decimal : ℕ → Text
unfolding digits_rev
decimal n = reverse (digits_rev n n)
