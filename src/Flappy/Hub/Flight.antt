-- ===== src/Flappy/Hub/Flight.antt =====
-- A leave in the race.
use mathlib.Core.Path.{subst}
use hmlb.Prelude.{
  ℕ, ◌<◌, ◌≡◌, ◌≢◌, refl, sym, ap, ◌∙◌, false, Option, some, nat_eq, text_eq, arith, inl, inr,
  Bool-cases, nat_beq, ◌>>=◌,
}
use hmlb.Prelude.Maps.{lookup, delete, has_key, lookup-delete_ne, has_key-lookup-some}
use hmlb.Prelude.Removal.{remove_first}
use hmlb.Flappy.Float.{Float}
use hmlb.Flappy.Hub.Defs.{Session, Hub}
use hmlb.Flappy.Hub.Frames.{broadcast}
use hmlb.Flappy.Hub.Handlers.{departed, leave_flight, leave_race}
use hmlb.Flappy.Hub.Finish.{finish_race_total}
use hmlb.Flappy.Hub.Invariant.{IsCovered, IsRace, IsHub}
use hmlb.Flappy.Hub.Sending.{Keeps, Sends-Keeps, broadcast_total, IsSound-known}
use hmlb.Flappy.Wire.{RaceState, racing}
use hmlb.Flappy.World.Defs.{BirdState, World, kill_left, alive, is_racer}
use hmlb.Flappy.World.Total.{IsWorld}
use hmlb.Flappy.World.Racers.{kill_left-IsWorld, kill_left-flying}
use hmlb.Flappy.Hub.Departure.{left-IsRoster, left-IsWired}

module _ {A : Type 0} ⦃f : Float A⦄ (s : Session) (h : Hub A) (ok : IsHub h)
    (here : lookup s.id h.players ≡ some s) where
  -- In the race the leaver's bird dies, and with the last bird the race ends.
  IsCovered-still :
      (w : World A)
      → ((k : ℕ) (b : BirdState A) → lookup k w.birds ≡ some b → b.dead ≡ false → s.id ≢ k)
      → IsCovered w.birds h.players
      → IsCovered w.birds (delete s.id h.players)
  IsCovered-still w others covered k b e flying =
      let (t, found) = covered k b e flying in
      (t, lookup-delete_ne s.id k h.players (others k b e flying) ∙ found)

  racing-IsHub :
      (o : Option (World A)) (w : World A)
      → o ≡ some w
      → h.st ≡ racing
      → IsWorld w
      → 0 < alive w
      → IsCovered w.birds (delete s.id h.players)
      → IsHub (record (departed s h) { world = o })
  racing-IsHub o w known e sound some_alive covered = record {
    roster = (left-IsRoster s h ok here);
    wired = (left-IsWired s h ok here);
    race =
        subst (λ st. IsRace st o (remove_first s.id h.order) (delete s.id h.players)) (sym e)
          (w, known, sound, some_alive, covered);
  }

  not_racer :
      (w : World A)
      → has_key s.id w.birds ≡ false
      → (k : ℕ) (b : BirdState A) → lookup k w.birds ≡ some b
      → b.dead ≡ false
      → s.id ≢ k
  not_racer w spectator k b found _ same =
      cc (sym spectator ∙ ap (λ i. has_key i w.birds) same ∙ has_key-lookup-some k w.birds b found)

  leave_flight-Keeps :
      (w : World A) (now sent : ℕ)
      → h.world ≡ some w
      → IsWorld w
      → 0 < alive w
      → IsCovered w.birds h.players
      → h.st ≡ racing
      → Keeps (departed s h) (leave_flight w now sent s (departed s h))
  unfolding leave_flight is_racer
  leave_flight-Keeps w now sent known sound some_alive covered e =
      elim (Bool-cases (has_key s.id w.birds)) [
        | inr spectator ↦ (
          departed s h,
          rw (spectator, leave_flight) refl,
          racing-IsHub h.world w known e sound some_alive
              (IsCovered-still w (not_racer w spectator) covered),
          refl,
          λ c o. o,
        )
        | inl racer ↦
            let w' = kill_left s.id w in
            let sound' = kill_left-IsWorld s.id w sound in
            let h' = record (departed s h) { world = some w' } in
            elim (Bool-cases (nat_beq (alive w') 0)) [
              | inl over ↦
                  let (h'', runs, ok'', same, kept) =
                    finish_race_total now sent h' w' (left-IsRoster s h ok here)
                      (left-IsWired s h ok here) refl sound' in
                  (h'', rw (racer, leave_flight, over) runs, ok'', same, kept)
              | inr on ↦
                  let ok' =
                    racing-IsHub (some w') w' refl e sound' (ground arith) (λ k b found flying.
                      let (old, ne) = kill_left-flying s.id k b w found flying in
                      let (t, there) = covered k b old flying in
                      (t, lookup-delete_ne s.id k h.players ne ∙ there)) in
                  let (h'', runs, ok'', same, kept) = Sends-Keeps h' (broadcast sent h') ok' (
                    broadcast_total sent h' (left-IsWired s h ok here)
                      (IsSound-known (some w') w' refl sound')) in
                  (h'', rw (racer, leave_flight, on) runs, ok'', same, kept)
            ]
      ]

  pub leave_race-Keeps :
      (now sent : ℕ)
      → IsRace RaceState.racing h.world h.order h.players
      → h.st ≡ racing
      → Keeps (departed s h) (leave_race now sent s (departed s h))
  unfolding leave_race
  leave_race-Keeps now sent (w, known, sound, some_alive, covered) e =
      let (h', runs, ok', same, kept) =
        leave_flight-Keeps w now sent known sound some_alive covered e in
      (
        h',
        ap (λ o. o >>= λ v. leave_flight v now sent s (departed s h)) known ∙ runs,
        ok',
        same,
        kept,
      )
