-- ===== src/Prelude/Decimals.antt =====
-- Different numbers have different digits.
use Prim.Native.Nat.{ℕ, zero, suc, ◌+◌, ◌-◌, ◌*◌, ◌/◌, ◌≤◌}
use mathlib.Core.Path.{◌≡◌, ap, sym, ◌∙◌}
use mathlib.Core.Logic.{inl, inr}
use mathlib.Core.List.{[], ◌∷◌, reverse, reverse-reverse}
use native.Mathlib.Omega.{arith}
use hmlb.Prelude.Tests.{ltb, Bool-cases}
use hmlb.Prelude.Equality.{Text}
use hmlb.Prelude.Decimal.{digits_rev, decimal}

-- The number that digits stand for, the last one first.
value_rev : Text → ℕ
value_rev [] = 0
value_rev (c ∷ cs) = c - 48 + 10 * value_rev cs

value_rev-digits_rev : (fuel n : ℕ) → n ≤ fuel → value_rev (digits_rev fuel n) ≡ n
unfolding value_rev digits_rev
value_rev-digits_rev zero n h = omega arith
value_rev-digits_rev (suc fuel) n h = elim (Bool-cases (ltb n 10)) [
  | inl small ↦ rw (small, digits_rev) (ground arith)
  | inr big ↦ ground (arith, value_rev-digits_rev fuel (n / 10))
]

pub decimal_injective : (m n : ℕ) → decimal m ≡ decimal n → m ≡ n
unfolding decimal
decimal_injective m n e =
    let same : digits_rev m m ≡ digits_rev n n =
      sym (reverse-reverse (digits_rev m m)) ∙ ap reverse e ∙ reverse-reverse (digits_rev n n) in
    sym (value_rev-digits_rev m m (omega arith))
    ∙ ap value_rev same
    ∙ value_rev-digits_rev n n (omega arith)
