-- ===== src/Flappy/Hub/Finish.antt =====
-- The end of a race never faults: every racer has a row, and the results window opens if anybody is
-- there to see it.
use hmlb.Prelude.{ℕ, ◌+◌, ◌≡◌, ◌≢◌, refl, sym, ap, ◌∙◌, List, [], ◌∷◌, some, nat_eq, ◌>>=◌}
use hmlb.Prelude.All.{All}
use hmlb.Prelude.Maps.{Map, keys, lookup, lookup-keys}
use hmlb.Prelude.Sort.{sort_stable}
use hmlb.Flappy.Float.{Float}
use hmlb.Flappy.Rank.{Row, row, row_less, rows_of, number_from, results}
use hmlb.Flappy.Hub.Defs.{Session, Hub}
use hmlb.Flappy.Hub.Frames.{broadcast}
use hmlb.Flappy.Hub.Handlers.{idle, open_results, ranked, finish_race}
use hmlb.Flappy.Hub.Invariant.{IsRoster, IsWired}
use hmlb.Flappy.Hub.Sending.{Keeps, Sends-Keeps, broadcast_total, IsSound-known}
use hmlb.Flappy.Wire.{ResultSnap, finished}
use hmlb.Flappy.World.Defs.{BirdState, World}
use hmlb.Flappy.World.Total.{IsWorld}

-- No keys, no order.
pub keys_nil : (m : Map ℕ Session) (order : List ℕ) → keys m ≡ order → m ≡ [] → order ≡ []
keys_nil m order e none_left = sym e ∙ ap keys none_left

pub keys_cons :
    (m : Map ℕ Session) (order : List ℕ) (p : ℕ × Session) (ps : Map ℕ Session)
    → keys m ≡ order
    → m ≡ p ∷ ps
    → order ≢ []
keys_cons m order p ps e some_left empty = cc (sym empty ∙ sym e ∙ ap keys some_left)

module _ {A : Type 0} where
  pub rows_of_total :
      (ids : List ℕ) (m : Map ℕ (BirdState A))
      → All (λ k. (b : BirdState A) × (lookup k m ≡ some b)) ids
      → (rows : List Row) × (rows_of ids m ≡ some rows)
  unfolding rows_of
  rows_of_total [] m h = ([], refl)
  rows_of_total (id ∷ ids) m ((b, found), rest) =
      let (rows, runs) = rows_of_total ids m rest in (row b ∷ rows, rw (found, rows_of, runs) refl)

  pub results_total : (w : World A) → IsWorld w → (res : List ResultSnap) × (results w ≡ some res)
  unfolding results
  results_total w ok =
      let (rows, runs) = rows_of_total w.order w.birds (rw (← ok.keyed) (lookup-keys w.birds)) in
      (number_from 1 (sort_stable row_less rows), rw (runs, results) refl)

module _ {A : Type 0} ⦃f : Float A⦄ where
  open_results_total :
      (ps : Map ℕ Session) (now sent : ℕ) (h : Hub A) (w : World A)
      → h.players ≡ ps
      → IsRoster h.players h.order h.names h.next_id
      → IsWired h.players h.conns
      → h.world ≡ some w
      → IsWorld w
      → Keeps h (open_results ps now sent h)
  unfolding open_results
  open_results_total [] now sent h w e roster wired known ok = (
    idle h,
    refl,
    record { roster = roster; wired = wired; race = keys_nil h.players h.order roster.keyed e },
    refl,
    λ c o. o,
  )
  open_results_total (p ∷ ps) now sent h w e roster wired known ok =
      let h₁ = record h { st = finished; finish_at = now + h.cfg.results_ms } in
      Sends-Keeps h₁ (broadcast sent h₁)
        (record {
          roster = roster;
          wired = wired;
          race = (keys_cons h.players h.order p ps roster.keyed e, (w, known, ok));
        })
        (broadcast_total sent h₁ wired (IsSound-known h.world w known ok))

  -- `finishRace` with a well-formed world, a roster and open connections does not fault: the
  -- invariant holds afterwards, the players are as before, and no connection that was open is
  -- closed.
  pub finish_race_total :
      (now sent : ℕ) (h : Hub A) (w : World A)
      → IsRoster h.players h.order h.names h.next_id
      → IsWired h.players h.conns
      → h.world ≡ some w
      → IsWorld w
      → Keeps h (finish_race now sent h)
  unfolding finish_race
  finish_race_total now sent h w roster wired known ok =
      let (res, ranks) = results_total w ok in
      let (h', runs, ok', same, kept) =
        open_results_total h.players now sent (ranked now res h) w refl roster wired known ok in
      (
        h',
        ap (λ o. o >>= λ v. results v >>= λ r. open_results h.players now sent (ranked now r h))
              known
            ∙ ap (λ o. o >>= λ r. open_results h.players now sent (ranked now r h)) ranks
            ∙ runs,
        ok',
        same,
        kept,
      )
