-- ===== src/Flappy/Name.antt =====
-- internal/protocol/message.go, `ValidateName`. A name is the list of its runes.
use hmlb.Prelude.{ℕ, Bool, true, false, ◌||◌, not, ltb, nat_beq, length, any, Text, if◌then◌else◌}
use hmlb.Prelude.Strings.{trim_space}
use hmlb.Flappy.Const.{max_name_len}

-- `unicode.IsPrint` is a table of the standard library, and stands as a parameter.
module _ (is_print : ℕ → Bool) where
  unfoldable pub validate_name : Text → Text × Bool
  validate_name s =
      let name = trim_space s in
      if nat_beq (length name) 0 || ltb max_name_len (length name)
      then (name, false)
      else if any (λ r. not (is_print r)) name
      then (name, false)
      else (name, true)
