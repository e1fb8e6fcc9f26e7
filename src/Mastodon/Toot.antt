-- ===== src/Mastodon/Toot.antt =====
-- images/blog-klimlive/internal/mastodon/sync.go, `composeToot`. A text is the list of its bytes.
use hmlb.Prelude.{
  ℕ, zero, suc, ◌+◌, ◌-◌, ◌≤◌, ◌<◌, ◌≡◌, refl, ap, true, false, [], ◌∷◌, ◌++◌, Text, ltb, leb,
  if◌then◌else◌, length, length-append, take, arith, inl, inr, Bool-cases, ◌⊎◌, Option, none, some,
}

abbrev pub gap : Text
gap = 10 ∷ 10 ∷ []

abbrev pub dots : Text
dots = 46 ∷ 46 ∷ 46 ∷ []

abbrev pub with_summary : Text → Text → Text → Text
with_summary title summary url = title ++ (gap ++ (summary ++ (gap ++ url)))

abbrev pub without_summary : Text → Text → Text
without_summary title url = title ++ (gap ++ url)

abbrev pub whole_toot : Text → Text → Text → Text
whole_toot title [] url = without_summary title url
whole_toot title (c ∷ s) url = with_summary title (c ∷ s) url

-- `summary[:n]`, which panics past the end.
unfoldable pub prefix : ℕ → Text → Option Text
prefix n s = if leb n (length s) then some (take n s) else none

-- `maxSummary > 3` is `title + url + 9 < 500`, as the difference may be negative.
unfoldable pub compose_toot : Text → Text → Text → Option Text
unfolding prefix
compose_toot title summary url =
    let whole = whole_toot title summary url in
    elim (ltb 500 (length whole)) [
      | false ↦ some whole
      | true ↦ elim (ltb (length title + length url + 9) 500) [
        | false ↦ some (without_summary title url)
        | true ↦ elim (prefix (500 - length title - length url - 6) summary) [
          | none ↦ none
          | some cut ↦ some (with_summary title (cut ++ dots) url)
        ]
      ]
    ]

length-take_exact : (n : ℕ) (s : Text) → n ≤ length s → length (take n s) ≡ n
length-take_exact zero s h = refl
length-take_exact (suc n) [] h = absurd (omega arith)
length-take_exact (suc n) (c ∷ s) h = ap suc (length-take_exact n s (omega arith))

length-with_summary :
    (title summary url : Text)
    → length (with_summary title summary url) ≡ length title + length summary + length url + 4
length-with_summary title summary url = omega (
  arith,
  length-append title (gap ++ (summary ++ (gap ++ url))),
  length-append summary (gap ++ url),
)

length-without_summary :
    (title url : Text) → length (without_summary title url) ≡ length title + length url + 2
length-without_summary title url = omega (arith, length-append title (gap ++ url))

long_summary :
    (title summary url : Text)
    → 500 < length (whole_toot title summary url)
    → length title + length url + 9 < 500
    → 500 < length title + length summary + length url + 4
long_summary title [] url h k = absurd (omega (arith, length-without_summary title url))
long_summary title (c ∷ s) url h k = omega (arith, length-with_summary title (c ∷ s) url)

-- `composeToot` never slices past the end of the summary. A text of at most 500 bytes is kept
-- whole; a longer one loses its summary, or is cut to a toot of exactly 501 bytes.
pub compose_toot_lem :
    (title summary url : Text)
    → (toot : Text) × (compose_toot title summary url ≡ some toot)
      × (((length (whole_toot title summary url) ≤ 500) × (toot ≡ whole_toot title summary url))
          ⊎ ((500 < length (whole_toot title summary url))
              × ((toot ≡ without_summary title url) ⊎ (length toot ≡ 501))))
unfolding compose_toot prefix
compose_toot_lem title summary url =
    elim (Bool-cases (ltb 500 (length (whole_toot title summary url)))) [
      | inr fits ↦
          (whole_toot title summary url, rw (fits, compose_toot) refl, inl (ground arith, refl))
      | inl long ↦ elim (Bool-cases (ltb (length title + length url + 9) 500)) [
        | inr no_room ↦ (
          without_summary title url,
          rw (long, compose_toot, no_room) refl,
          inr (ground arith, inl refl),
        )
        | inl room ↦
            let n = 500 - length title - length url - 6 in
            let big = long_summary title summary url (ground arith) (ground arith) in
            let cut = take n summary ++ dots in
            let fits : leb n (length summary) ≡ true = ground (arith, big) in
            let exact = length-take_exact n summary (omega (arith, big)) in
            (
              with_summary title cut url,
              rw (long, compose_toot, room, fits) refl,
              inr (
                ground arith,
                inr (
                    ground (
                      arith,
                      exact,
                      length-append (take n summary) dots,
                      length-with_summary title cut url,
                    )),
              ),
            )
      ]
    ]
