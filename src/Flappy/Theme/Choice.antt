-- ===== src/Flappy/Theme/Choice.antt =====
-- The theme of the next race.
use hmlb.Prelude.{◌≡◌, ◌≢◌, true, arith, nat_eq}
use hmlb.Flappy.Hub.Defs.{pick_theme}
use hmlb.Flappy.Rng.{Rng}
use hmlb.Flappy.Theme.{Theme, theme_valid}

-- `pickTheme` picks a theme that exists, and never the one of the last race.
pub pick_theme_lem :
    (last : Theme) (r : Rng)
    → (theme_valid (pick_theme last r).0 ≡ true) × ((pick_theme last r).0 ≢ last)
unfolding pick_theme theme_valid
pick_theme_lem last r = (ground arith, λ e. ground arith)
