-- ===== src/Flappy/Fixed.antt =====
-- A fixed-point stand-in for float64, of four decimals: the operations of the simulation on the
-- integers, to run its code on.
use hmlb.Prelude.{ℕ, ◌+◌, ◌-◌, ◌*◌, ◌/◌, ◌^◌, not, arith, if◌then◌else◌}
use hmlb.Prelude.Int.{ℤ, pos, ◌+ℤ◌, ◌-ℤ◌, ◌*ℤ◌, sub_ℕ, pos_part, neg_part, ltb_ℤ}
use hmlb.Flappy.Float.{Float, FloatLaws}

abbrev scale : ℕ → ℤ → ℤ
scale n a = sub_ℕ (pos_part a * n) (neg_part a * n)

-- Division towards zero.
abbrev quotient : ℤ → ℤ → ℤ
quotient a b =
    let m = pos_part b + neg_part b in
    let q = pos_part a / m in
    let r = neg_part a / m in if ltb_ℤ b (pos 0) then sub_ℕ r q else sub_ℕ q r

instance unfoldable pub fixed : Float ℤ
unfolding ◌+ℤ◌ ◌-ℤ◌ ◌*ℤ◌
fixed = record {
  lit = λ m k. scale (10 ^ (4 - k)) m;
  add = λ a b. a +ℤ b;
  sub = λ a b. a -ℤ b;
  mul = λ a b. quotient (a *ℤ b) (pos 10000);
  div = λ a b. quotient (scale 10000 a) b;
  lt = ltb_ℤ;
  le = λ a b. not (ltb_ℤ b a);
  fmin = λ a b. if ltb_ℤ b a then b else a;
  fmax = λ a b. if ltb_ℤ a b then b else a;
  fabs = λ a. pos (pos_part a + neg_part a);
  fround = λ a. scale 10000 (sub_ℕ ((pos_part a + 5000) / 10000) ((neg_part a + 5000) / 10000));
  to_int = λ a. quotient a (pos 10000);
}

pub fixed_laws : FloatLaws fixed
unfolding fixed ◌+ℤ◌
fixed_laws = record {
  lt_irrefl = λ a. ground arith;
  lt_asym = λ a b h. ground arith;
  lt-le = λ a b h. ground arith;
  le_trans = λ a b c h k. ground arith;
  lit_lt = λ m n hm hn h. ground arith;
  lit_le_refl = λ m h. ground arith;
  lit_add = λ m n hm hn h. ground arith;
  add_mono = λ a b n h. ground arith;
  fmin_le = λ a b. ground arith;
  fmax_ge = λ a b. ground arith;
}
