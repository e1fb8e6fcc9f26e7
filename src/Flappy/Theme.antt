-- ===== src/Flappy/Theme.antt =====
-- internal/protocol/theme.go: the visual world of a race.
pub mod Names
pub mod Choice
use hmlb.Prelude.{
  ℕ, Bool, ltb, ◌==◌, Text, text, text_eq, nat_eq, Option, none, some, if◌then◌else◌,
}

-- A theme is a uint8.
abbrev pub Theme : Type 0
Theme = ℕ

abbrev pub theme_desert : Theme
theme_desert = 0

abbrev pub theme_clouds : Theme
theme_clouds = 1

abbrev pub theme_forest : Theme
theme_forest = 2

abbrev pub theme_underwater : Theme
theme_underwater = 3

abbrev pub theme_count : ℕ
theme_count = 4

unfoldable pub theme_valid : Theme → Bool
theme_valid t = ltb t theme_count

unfoldable pub theme_string : Theme → Text
theme_string t =
    if t == theme_desert
    then text "desert"
    else if t == theme_clouds
    then text "clouds"
    else if t == theme_forest
    then text "forest"
    else if t == theme_underwater
    then text "underwater"
    else text "unknown"

unfoldable pub theme_from_string : Text → Option Theme
theme_from_string s =
    if s == text "desert"
    then some theme_desert
    else if s == text "clouds"
    then some theme_clouds
    else if s == text "forest"
    then some theme_forest
    else if s == text "underwater"
    then some theme_underwater
    else none
