-- ===== src/Flappy/Theme/Names.antt =====
-- A theme's name leads back to the theme.
use hmlb.Prelude.{
  ℕ, zero, suc, ◌<◌, ◌≡◌, refl, Bool, true, false, Text, text, text_eq, nat_eq, Option, none, some,
  arith, inl, inr, Bool-cases, ◌==◌, ltb, if◌then◌else◌,
}
use hmlb.Flappy.Theme.{Theme, theme_valid, theme_string, theme_from_string}

-- Each of the themes is read back from its name.
pub theme_from_string-theme_string :
    (t : Theme) → theme_valid t ≡ true → theme_from_string (theme_string t) ≡ some t
unfolding theme_valid theme_string theme_from_string hmlb.Prelude.Equality.text_beq
theme_from_string-theme_string zero h = refl
theme_from_string-theme_string (suc zero) h = refl
theme_from_string-theme_string (suc (suc zero)) h = refl
theme_from_string-theme_string (suc (suc (suc zero))) h = refl
theme_from_string-theme_string (suc (suc (suc (suc n)))) h = ground arith
