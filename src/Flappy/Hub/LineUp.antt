-- ===== src/Flappy/Hub/LineUp.antt =====
-- A leave in the countdown.
use mathlib.Core.Path.{subst}
use hmlb.Prelude.{ℕ, ◌≡◌, refl, sym, ap, ◌∙◌, some, nat_eq, text_eq, inl, inr, Bool-cases, nat_beq}
use hmlb.Prelude.Maps.{lookup, delete, lookup-same_keys, lookup-delete_inv}
use hmlb.Prelude.Removal.{remove_first}
use hmlb.Flappy.Float.{Float}
use hmlb.Flappy.Hub.Defs.{Session, Hub}
use hmlb.Flappy.Hub.Frames.{broadcast}
use hmlb.Flappy.Hub.Handlers.{idle, departed, leave_line_up}
use hmlb.Flappy.Hub.Invariant.{IsRace, IsHub}
use hmlb.Flappy.Hub.Sending.{Keeps, Sends-Keeps, broadcast_total, IsSound-known}
use hmlb.Flappy.Wire.{countdown}
use hmlb.Flappy.World.Defs.{World, remove_bird, racer_count}
use hmlb.Flappy.World.Racers.{remove_bird-IsWorld}
use hmlb.Flappy.Hub.Departure.{
  is_racer_known, removed, racers_none, racers_some, left-IsRoster, left-IsWired,
}

module _ {A : Type 0} ⦃f : Float A⦄ (s : Session) (h : Hub A) (ok : IsHub h)
    (here : lookup s.id h.players ≡ some s) where
  -- In the countdown the leaver's bird leaves the line-up.
  pub leave_countdown-Keeps :
      (sent : ℕ)
      → IsRace countdown h.world h.order h.players
      → h.st ≡ countdown
      → Keeps (departed s h) (leave_line_up h.world sent s (departed s h))
  unfolding leave_line_up
  leave_countdown-Keeps sent (_, (w, known, sound, order, flying)) e =
      let (b, racer) =
        lookup-same_keys s.id s h.players w.birds (ok.roster.keyed ∙ sym order ∙ sym sound.keyed)
          here in
      let racing = is_racer_known s.id b w racer in
      let gone = removed s.id b w racer in
      let w' = remove_bird s.id w in
      let sound' = remove_bird-IsWorld s.id w sound in
      let h' = record (departed s h) { world = some w'; race_info = delete s.id h.race_info } in
      let order' : w'.order ≡ remove_first s.id h.order =
        ap (λ (u : World A). u.order) gone ∙ ap (remove_first s.id) order in
      elim (Bool-cases (nat_beq (racer_count w') 0)) [
        | inl empty ↦ (
          idle h',
          rw (known, leave_line_up, racing, empty) refl,
          record {
            roster = (left-IsRoster s h ok here);
            wired = (left-IsWired s h ok here);
            race = sym order' ∙ racers_none w' sound' empty;
          },
          refl,
          λ c o. o,
        )
        | inr others ↦
            let ok' : IsHub h' = record {
              roster = (left-IsRoster s h ok here);
              wired = (left-IsWired s h ok here);
              race =
                  subst
                    (λ st. IsRace st (some w') (remove_first s.id h.order) (delete s.id h.players))
                    (sym e)
                    (
                      λ none_left. racers_some w' sound' others (order' ∙ none_left),
                      (
                        w',
                        refl,
                        sound',
                        order',
                        λ k c found.
                            flying k c
                              (lookup-delete_inv s.id k c w.birds
                                (sym (ap (λ (u : World A). lookup k u.birds) gone) ∙ found)).1,
                      ),
                    );
            } in
            let (h'', runs, ok'', same, kept) = Sends-Keeps h' (broadcast sent h') ok' (
              broadcast_total sent h' (left-IsWired s h ok here)
                (IsSound-known (some w') w' refl sound')) in
            (h'', rw (known, leave_line_up, racing, others) runs, ok'', same, kept)
      ]
