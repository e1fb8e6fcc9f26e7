-- ===== src/Flappy/Store/Board.antt =====
-- The all-time leaderboard.
use hmlb.Prelude.{
  ◌⊎◌, ap, keep, keep-hit, keep-miss, ltb, ℕ, ◌<◌, ◌≡◌, refl, List, [], ◌∷◌, Bool, true, false, inl,
  inr, Text, text_eq, some, arith, Bool-cases, nat_beq, take,
}
use hmlb.Prelude.Maps.{Map}
use hmlb.Prelude.Sort.{
  IsOrder, IsOrdered, IsSorted-IsOrdered, sort_stable, sort_stable-perm, sort_stable-IsSorted,
}
use mathlib.Core.List.{Perm}
use mathlib.Core.Path.{subst}
use hmlb.Flappy.Const.{max_top_entries}
use hmlb.Flappy.Theme.{Theme}
use hmlb.Flappy.Wire.{TopEntry}
use hmlb.Flappy.Store.Defs.{
  PlayerStat, Store, RaceEntry, persist, refresh_api, api_bytes, record_entries, text_lt,
  entry_less, top_entry, top_entries, top_of, rebuild_top, record_race,
}

text_lt_asym : (a b : Text) → text_lt a b ≡ true → text_lt b a ≡ false
unfolding text_lt
text_lt_asym [] [] h = refl
text_lt_asym [] (y ∷ b) h = refl
text_lt_asym (x ∷ a) [] h = cc
text_lt_asym (x ∷ a) (y ∷ b) h = ground (arith, text_lt_asym a b)

text_lt_trans : (a b c : Text) → text_lt b a ≡ false → text_lt c b ≡ false → text_lt c a ≡ false
unfolding text_lt
text_lt_trans [] [] [] h k = refl
text_lt_trans [] [] (z ∷ c) h k = refl
text_lt_trans [] (y ∷ b) [] h k = refl
text_lt_trans [] (y ∷ b) (z ∷ c) h k = refl
text_lt_trans (x ∷ a) [] c h k = cc
text_lt_trans (x ∷ a) (y ∷ b) [] h k = cc
text_lt_trans (x ∷ a) (y ∷ b) (z ∷ c) h k = ground (arith, text_lt_trans a b c)

-- The better score, then the name: a strict weak order.
entry_less-IsOrder : IsOrder entry_less
unfolding entry_less
entry_less-IsOrder = record {
  asym = λ a b h. ground (arith, text_lt_asym a.name b.name);
  trans = λ a b c h k. ground (arith, text_lt_trans a.name b.name c.name);
}

-- Go's order of strings, the first difference decides.
abbrev pub IsTextLe : Text → Text → Type 0
IsTextLe [] b = Unit {0}
IsTextLe (x ∷ a) [] = ⊥
IsTextLe (x ∷ a) (y ∷ b) = (x < y) ⊎ ((x ≡ y) × IsTextLe a b)

text_lt-IsTextLe : (a b : Text) → text_lt b a ≡ false → IsTextLe a b
unfolding text_lt
text_lt-IsTextLe [] b h = tt
text_lt-IsTextLe (x ∷ a) [] h = cc
text_lt-IsTextLe (x ∷ a) (y ∷ b) h = ground (arith, text_lt-IsTextLe a b)

-- The better score, then the name.
abbrev pub IsAbove : TopEntry → TopEntry → Type 0
IsAbove a b = (b.score < a.score) ⊎ ((a.score ≡ b.score) × IsTextLe a.name b.name)

entry_less-IsAbove : (a b : TopEntry) → entry_less b a ≡ false → IsAbove a b
unfolding entry_less
entry_less-IsAbove a b h = ground (arith, text_lt-IsTextLe a.name b.name)

-- The rows of everyone who is remembered.
abbrev pub everyone : Map Text PlayerStat → List TopEntry
everyone [] = []
everyone ((name, ps) ∷ m) =
    record { name = name; score = ps.best; theme = ps.best_theme; at = ps.best_at } ∷ everyone m

abbrev pub has_point : TopEntry → Bool
has_point e = ltb 0 e.score

top_entries-everyone : (m : Map Text PlayerStat) → top_entries m ≡ keep has_point (everyone m)
unfolding top_entries top_entry
top_entries-everyone [] = refl
top_entries-everyone ((name, ps) ∷ m) = elim (Bool-cases (nat_beq ps.best 0)) [
  | inl none_yet ↦
      let out : ltb 0 ps.best ≡ false = ground arith in
      rw (none_yet, top_entries, keep-miss has_point (top_entry name ps) (everyone m) out)
        (top_entries-everyone m)
  | inr some_best ↦
      let within : ltb 0 ps.best ≡ true = ground arith in
      rw (some_best, top_entries, keep-hit has_point (top_entry name ps) (everyone m) within)
        (ap (◌∷◌ (top_entry name ps)) (top_entries-everyone m))
]

-- After a race the API serves the time of the race and the leaderboard: of the rows of everyone who
-- is remembered after the race and has a point, in an order in which each row has a better score
-- than a later one, or the same score and a name that is no later, the first `MaxTopEntries`.
pub record_race_board :
    (es : List RaceEntry) (theme : Theme) (at : ℕ) (s : Store)
    → (sorted : List TopEntry) × (api_bytes (record_race es theme at s)
        ≡ (some at, take max_top_entries sorted))
      × Perm sorted (keep has_point (everyone (record_race es theme at s).db.players))
      × IsOrdered IsAbove sorted
unfolding record_race rebuild_top persist refresh_api api_bytes top_of
record_race_board es theme at s =
    let m = record_entries theme at es s.db.players in
    let sorted = sort_stable entry_less (top_entries m) in
    (
      sorted,
      refl,
      subst (λ es. Perm sorted es) (top_entries-everyone m)
          (sort_stable-perm entry_less (top_entries m)),
      IsSorted-IsOrdered entry_less IsAbove sorted entry_less-IsAbove
          (sort_stable-IsSorted entry_less entry_less-IsOrder (top_entries m)),
    )
