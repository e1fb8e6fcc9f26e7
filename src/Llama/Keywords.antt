-- ===== src/Llama/Keywords.antt =====
-- images/llamastack-proxy/main.go: the words of a text that count. A text is the list of its runes;
-- `strings.ToLower` maps them by a table of the standard library, which stands as a parameter.
use hmlb.Prelude.{
  ℕ, ◌≡◌, Bool, false, ◌&&◌, ◌||◌, List, [], ◌∷◌, ◌++◌, Text, text, text_eq, ◌==◌, ltb, leb,
  nat_beq, if◌then◌else◌, length, any, map, take, arith, inl, inr, Bool-cases,
}
use hmlb.Prelude.All.{All, Distinct, Fresh, Distinct-snoc, All-append}

-- `truncateString`, on bytes.
unfoldable pub truncate_string : Text → ℕ → Text
truncate_string s max_len = if leb (length s) max_len then s else take max_len s ++ text "..."

abbrev pub stop_words : List Text
stop_words =
    text "the"
    ∷ text "a"
    ∷ text "an"
    ∷ text "and"
    ∷ text "or"
    ∷ text "but"
    ∷ text "in"
    ∷ text "on"
    ∷ text "at"
    ∷ text "to"
    ∷ text "for"
    ∷ text "of"
    ∷ text "with"
    ∷ text "by"
    ∷ text "from"
    ∷ text "as"
    ∷ text "is"
    ∷ text "was"
    ∷ text "are"
    ∷ text "were"
    ∷ text "be"
    ∷ text "been"
    ∷ text "being"
    ∷ text "have"
    ∷ text "has"
    ∷ text "had"
    ∷ text "do"
    ∷ text "does"
    ∷ text "did"
    ∷ text "will"
    ∷ text "would"
    ∷ text "could"
    ∷ text "should"
    ∷ text "may"
    ∷ text "might"
    ∷ text "must"
    ∷ text "can"
    ∷ text "this"
    ∷ text "that"
    ∷ text "these"
    ∷ text "those"
    ∷ text "i"
    ∷ text "you"
    ∷ text "he"
    ∷ text "she"
    ∷ text "it"
    ∷ text "we"
    ∷ text "they"
    ∷ text "what"
    ∷ text "which"
    ∷ text "who"
    ∷ text "when"
    ∷ text "where"
    ∷ text "why"
    ∷ text "how"
    ∷ text "all"
    ∷ text "each"
    ∷ text "every"
    ∷ text "both"
    ∷ text "few"
    ∷ text "more"
    ∷ text "most"
    ∷ text "other"
    ∷ text "some"
    ∷ text "such"
    ∷ text "no"
    ∷ text "nor"
    ∷ text "not"
    ∷ text "only"
    ∷ text "own"
    ∷ text "same"
    ∷ text "so"
    ∷ text "than"
    ∷ text "too"
    ∷ text "very"
    ∷ text "use"
    ∷ text "using"
    ∷ text "used"
    ∷ text "tool"
    ∷ text "tools"
    ∷ []

-- The runes of a word: a–z, 0–9 and _.
abbrev pub is_word_rune : ℕ → Bool
is_word_rune r = (leb 97 r && leb r 122) || (leb 48 r && leb r 57) || nat_beq r 95

-- `strings.FieldsFunc`: the longest runs of word runes, `word` being the one that has begun.
unfoldable pub fields_from : Text → Text → List Text
fields_from word [] = if nat_beq (length word) 0 then [] else word ∷ []
fields_from word (r ∷ rs) =
    let more = fields_from (word ++ r ∷ []) rs in
    let next = fields_from [] rs in
    if is_word_rune r then more else if nat_beq (length word) 0 then next else word ∷ next

abbrev pub is_in : Text → List Text → Bool
is_in w ws = any (λ v. v == w) ws

-- A word's runes are single bytes, so that its length is that of its bytes. The list of keywords is
-- also the set of the words that were seen.
unfoldable pub keep_words : List Text → List Text → List Text
keep_words kept [] = kept
keep_words kept (w ∷ ws) =
    keep_words
      (if ltb (length w) 3 || is_in w stop_words || is_in w kept then kept else kept ++ w ∷ []) ws

unfoldable pub extract_keywords : (ℕ → ℕ) → Text → List Text
unfolding fields_from keep_words
extract_keywords to_lower s = keep_words [] (fields_from [] (map to_lower s))

-- A keyword has three letters or more, and is no stop word.
abbrev pub IsKeyword : Text → Type 0
IsKeyword w = (ltb (length w) 3 ≡ false) × (is_in w stop_words ≡ false)

is_in-Fresh : (w : Text) (ws : List Text) → is_in w ws ≡ false → Fresh w ws
is_in-Fresh w [] h = tt
is_in-Fresh w (v ∷ ws) h = ground (arith, text_eq.beq_iff v w, is_in-Fresh w ws)

or_false : (a b c : Bool) → a || b || c ≡ false → (a ≡ false) × (b ≡ false) × (c ≡ false)
or_false a b c h = (ground arith, ground arith, ground arith)

keep_words_lem :
    (kept ws : List Text)
    → All IsKeyword kept
    → Distinct kept
    → All IsKeyword (keep_words kept ws) × Distinct (keep_words kept ws)
unfolding keep_words
keep_words_lem kept [] all d = (all, d)
keep_words_lem kept (w ∷ ws) all d =
    elim (Bool-cases (ltb (length w) 3 || is_in w stop_words || is_in w kept)) [
      | inl skip ↦ rw (skip, keep_words) (keep_words_lem kept ws all d)
      | inr good ↦
          let (long, plain, new) =
            or_false (ltb (length w) 3) (is_in w stop_words) (is_in w kept) good in
          rw (good, keep_words)
            (keep_words_lem (kept ++ w ∷ []) ws
              (All-append IsKeyword kept (w ∷ []) all ((long, plain), tt))
              (Distinct-snoc kept w (is_in-Fresh w kept new) d))
    ]

-- The keywords of a text have three letters or more and are no stop words, and each of them is
-- there once.
pub extract_keywords_lem :
    (to_lower : ℕ → ℕ) (s : Text)
    → All IsKeyword (extract_keywords to_lower s) × Distinct (extract_keywords to_lower s)
unfolding extract_keywords
extract_keywords_lem to_lower s = keep_words_lem [] (fields_from [] (map to_lower s)) tt tt
