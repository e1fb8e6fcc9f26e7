-- ===== src/Flappy/Float.antt =====
-- float64 as the simulation uses it: a type with its operations. No result is assumed of them here;
-- the laws that a theorem needs are a record of their own.
use hmlb.Prelude.{ℕ, Bool, true, false, ◌≡◌, ◌+◌, ◌<◌, ◌^◌}
use hmlb.Prelude.Int.{ℤ, ◌+ℤ◌, ltb_ℤ, pos_part, neg_part}

pub record Float (A : Type 0) : Type 0 where
  -- the constant m / 10 ^ k, correctly rounded
  pub lit : ℤ → ℕ → A
  pub add : A → A → A
  pub sub : A → A → A
  pub mul : A → A → A
  pub div : A → A → A
  pub lt : A → A → Bool
  pub le : A → A → Bool
  -- the builtin `min` and `max`, `math.Abs`, `math.Round`, and the conversion to int64
  pub fmin : A → A → A
  pub fmax : A → A → A
  pub fabs : A → A
  pub fround : A → A
  pub to_int : A → ℤ

-- A whole number that float64 holds exactly.
abbrev pub IsWhole : ℤ → Type 0
IsWhole m = pos_part m + neg_part m < 2 ^ 53

-- What IEEE 754 says of comparisons, of sums of whole numbers and of the rounding of a sum. All of it
-- holds with NaN and the infinities among the values.
pub record FloatLaws {A : Type 0} (f : Float A) : Type 0 where
  pub lt_irrefl : (a : A) → f.lt a a ≡ false
  pub lt_asym : (a b : A) → f.lt a b ≡ true → f.lt b a ≡ false
  pub lt-le : (a b : A) → f.lt a b ≡ true → f.le a b ≡ true
  pub le_trans : (a b c : A) → f.le a b ≡ true → f.le b c ≡ true → f.le a c ≡ true
  pub lit_lt :
      (m n : ℤ) → IsWhole m → IsWhole n → ltb_ℤ m n ≡ true → f.lt (f.lit m 0) (f.lit n 0) ≡ true
  pub lit_le_refl : (m : ℤ) → IsWhole m → f.le (f.lit m 0) (f.lit m 0) ≡ true
  pub lit_add :
      (m n : ℤ)
      → IsWhole m
      → IsWhole n
      → IsWhole (m +ℤ n)
      → f.add (f.lit m 0) (f.lit n 0) ≡ f.lit (m +ℤ n) 0
  -- rounding is monotone
  pub add_mono :
      (a b : A) (n : ℤ) → f.le a b ≡ true → f.le (f.add a (f.lit n 0)) (f.add b (f.lit n 0)) ≡ true
  -- the builtins return no value past their bound
  pub fmin_le : (a b : A) → f.lt b (f.fmin a b) ≡ false
  pub fmax_ge : (a b : A) → f.lt (f.fmax a b) b ≡ false
