-- ===== src/Flappy/Store/Records.antt =====
-- What is remembered of a username.
use mathlib.Core.Path.{subst}
use hmlb.Prelude.{
  ℕ, ◌≤◌, ◌≡◌, ◌≢◌, refl, sym, ap, ◌∙◌, List, [], ◌∷◌, inl, inr, Text, text_eq, from_option, arith,
  Bool-cases, ◌==◌,
}
use hmlb.Prelude.Maps.{Map, lookup, insert, lookup-insert_self, lookup-insert_ne}
use hmlb.Prelude.All.{All}
use hmlb.Flappy.Birds.{Bird, valid}
use hmlb.Flappy.Theme.{Theme}
use hmlb.Flappy.Store.Defs.{
  PlayerStat, Store, persist, refresh_api, lookup_bird, remember_bird, no_stat, bird_of, RaceEntry,
  record_stat, record_entries,
}

persist_db : (s : Store) → (persist s).db ≡ s.db
unfolding persist refresh_api
persist_db s = refl

-- A bird that was remembered for a username is found under it, and is known if it is valid; no
-- other username's bird changes.
pub lookup_bird-remember_bird :
    (name : Text) (b : Bird) (s : Store)
    → (lookup_bird name (remember_bird name b s) ≡ (b, valid b))
      × ((other : Text)
          → name ≢ other
          → lookup_bird other (remember_bird name b s) ≡ lookup_bird other s)
unfolding lookup_bird remember_bird persist refresh_api
lookup_bird-remember_bird name b s =
    let ps = record (from_option no_stat (lookup name s.db.players)) { bird = b } in
    (
      ap bird_of (lookup-insert_self name ps s.db.players),
      λ other ne. ap bird_of (lookup-insert_ne name other ps s.db.players ne),
    )

-- The zero value stands for a username that is not known.
abbrev pub stat_of : Text → Map Text PlayerStat → PlayerStat
stat_of name m = from_option no_stat (lookup name m)

record_stat_best :
    (theme : Theme) (at : ℕ) (e : RaceEntry) (ps : PlayerStat)
    → (ps.best ≤ (record_stat theme at e ps).best) × (e.score ≤ (record_stat theme at e ps).best)
unfolding record_stat
record_stat_best theme at e ps = (ground arith, ground arith)

best_self :
    (name : Text) (ps : PlayerStat) (m : Map Text PlayerStat)
    → (stat_of name (insert name ps m)).best ≡ ps.best
best_self name ps m = ap (λ o. (from_option no_stat o).best) (lookup-insert_self name ps m)

best_kept :
    (name : Text) (ps : PlayerStat) (k : Text) (m : Map Text PlayerStat)
    → (stat_of name m).best ≤ ps.best
    → (stat_of k m).best ≤ (stat_of k (insert name ps m)).best
best_kept name ps k m more = elim (Bool-cases (name == k)) [
  | inl hit ↦
      let same : name ≡ k = (text_eq.beq_iff name k).0 hit in
      subst (λ j. (stat_of j m).best ≤ (stat_of j (insert name ps m)).best) same
        (omega (arith, best_self name ps m))
  | inr miss ↦
      let other : name ≢ k = λ same. cc (sym miss ∙ (text_eq.beq_iff name k).1 same) in
      omega (arith, ap (λ o. (from_option no_stat o).best) (lookup-insert_ne name k ps m other))
]

-- After a race nobody's best score is lower than before, and every finisher's is at least the score
-- of the race.
pub record_entries_best :
    (theme : Theme) (at : ℕ) (es : List RaceEntry) (m : Map Text PlayerStat)
    → ((name : Text) → (stat_of name m).best ≤ (stat_of name (record_entries theme at es m)).best)
      × All (λ e. e.score ≤ (stat_of e.name (record_entries theme at es m)).best) es
unfolding record_entries
record_entries_best theme at [] m = (λ name. omega arith, tt)
record_entries_best theme at (e ∷ es) m =
    let ps = record_stat theme at e (stat_of e.name m) in
    let up = record_stat_best theme at e (stat_of e.name m) in
    let (keeps, all) = record_entries_best theme at es (insert e.name ps m) in
    (
      λ name. omega (arith, best_kept e.name ps name m up.0, keeps name),
      (omega (arith, best_self e.name ps m, up.1, keeps e.name), all),
    )
