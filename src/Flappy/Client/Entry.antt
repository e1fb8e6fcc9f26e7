-- ===== src/Flappy/Client/Entry.antt =====
-- internal/client/nameentry.go: the start screen's input. A text is the list of its runes.
use hmlb.Prelude.{
  ℕ, ◌≤◌, ◌≡◌, ◌≢◌, refl, ap, Bool, true, ◌&&◌, ltb, leb, arith, inl, inr, Bool-cases,
  if◌then◌else◌, [], ◌∷◌, ◌++◌, Text, length, length-append, text_eq,
}
use hmlb.Flappy.Const.{max_name_len}
use hmlb.Flappy.Name.{validate_name}

-- The loop over the typed characters.
unfoldable pub type_chars : Text → Text → Text
type_chars buf [] = buf
type_chars buf (r ∷ rs) =
    let more = type_chars (buf ++ r ∷ []) rs in if leb max_name_len (length buf) then buf else more

abbrev pub without_last : Text → Text
without_last [] = []
without_last (r ∷ []) = []
without_last (r ∷ s ∷ rs) = r ∷ without_last (s ∷ rs)

unfoldable pub apply_name_input : (ℕ → Bool) → Text → Text → Bool → Bool → Text × Text
unfolding type_chars
apply_name_input is_print buf chars backspace enter =
    let typed = type_chars buf chars in
    let kept = if backspace && ltb 0 (length typed) then without_last typed else typed in
    let (name, ok) = validate_name is_print kept in if enter && ok then ([], name) else (kept, [])

type_chars-length :
    (buf chars : Text) → length buf ≤ max_name_len → length (type_chars buf chars) ≤ max_name_len
unfolding type_chars
type_chars-length buf [] h = h
type_chars-length buf (r ∷ rs) h = elim (Bool-cases (leb max_name_len (length buf))) [
  | inl full ↦ rw (full, type_chars) h
  | inr room ↦
      rw (room, type_chars)
        (type_chars-length (buf ++ r ∷ []) rs (ground (arith, length-append buf (r ∷ []))))
]

without_last-length : (buf : Text) → length (without_last buf) ≤ length buf
without_last-length [] = omega arith
without_last-length (r ∷ []) = omega arith
without_last-length (r ∷ s ∷ rs) = omega (arith, without_last-length (s ∷ rs))

second : (a b : Bool) → a && b ≡ true → b ≡ true
second a b h = ground arith

-- A buffer of at most `MaxNameLen` runes stays one; and what a submit returns, if not empty, is a
-- name that `ValidateName` made of some text and accepted, and the buffer is then empty.
pub apply_name_input_lem :
    (is_print : ℕ → Bool) (buf chars : Text) (backspace enter : Bool)
    → length buf ≤ max_name_len
    → (length (apply_name_input is_print buf chars backspace enter).0 ≤ max_name_len)
      × ((apply_name_input is_print buf chars backspace enter).1 ≢ []
          → ((apply_name_input is_print buf chars backspace enter).0 ≡ [])
            × ((kept : Text) × (validate_name is_print kept
                  ≡ ((apply_name_input is_print buf chars backspace enter).1, true))))
unfolding apply_name_input
apply_name_input_lem is_print buf chars backspace enter h =
    let typed = type_chars buf chars in
    let short = type_chars-length buf chars h in
    let kept = if backspace && ltb 0 (length typed) then without_last typed else typed in
    let brief : length kept ≤ max_name_len = ground (arith, short, without_last-length typed) in
    elim (Bool-cases (enter && (validate_name is_print kept).1)) [
      | inl sent ↦
          rw (sent, apply_name_input)
            (
              omega arith,
              λ _. (
                refl,
                (
                  kept,
                  ap (λ b. ((validate_name is_print kept).0, b))
                      (second enter (validate_name is_print kept).1 sent),
                ),
              ),
            )
      | inr not_yet ↦ rw (not_yet, apply_name_input) (brief, λ ne. absurd (ne refl))
    ]
