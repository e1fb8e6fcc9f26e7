-- ===== src/Flappy/Hub/Ticks.antt =====
-- A tick of the hub never faults, in any state of the race.
use mathlib.Core.Path.{subst}
use hmlb.Prelude.{
  ℕ, ◌<◌, ◌≡◌, ◌≢◌, refl, sym, ap, ◌∙◌, ◌||◌, List, [], ◌∷◌, Option, some, nat_eq, arith, inl, inr,
  Bool-cases, ◌>>=◌, leb, nat_beq,
}
use hmlb.Prelude.Maps.{Map, lookup-keys, lookup-same_keys}
use hmlb.Flappy.Const.{max_race_ticks}
use hmlb.Flappy.Float.{Float, FloatLaws}
use hmlb.Flappy.Hub.Defs.{Session, Hub}
use hmlb.Flappy.Hub.Frames.{broadcast, maybe_snapshot}
use hmlb.Flappy.Hub.Handlers.{
  idle, next_race, tick_countdown, settle, tick_race, tick_results, tick_in, tick,
}
use hmlb.Flappy.Hub.Admission.{begun, begin_countdown_total}
use hmlb.Flappy.Hub.Finish.{keys_nil, keys_cons, finish_race_total}
use hmlb.Flappy.Hub.Invariant.{IsAllAlive, IsCovered, IsRace, IsHub}
use hmlb.Flappy.Hub.Sending.{Sends-IsHub, broadcast_total, maybe_snapshot_total, IsSound-known}
use hmlb.Flappy.Wire.{RaceState, waiting, countdown, racing, finished}
use hmlb.Flappy.World.Defs.{World, alive}
use hmlb.Flappy.World.Step.{step}
use hmlb.Flappy.World.Total.{IsWorld}
use hmlb.Flappy.World.Racers.{alive_in_pos}
use hmlb.Flappy.World.Ticks.{IsTick, step-IsTick, ticked-flying}

module _ {A : Type 0} ⦃f : Float A⦄ where
  abbrev Goes : Option (Hub A) → Type 0
  Goes r = (h' : Hub A) × (r ≡ some h') × IsHub h'

  -- A snapshot that may be due changes nothing else.
  snapshot-Goes :
      (now sent : ℕ) (h : Hub A) (w : World A)
      → IsHub h
      → h.world ≡ some w
      → IsWorld w
      → Goes (maybe_snapshot now sent h)
  snapshot-Goes now sent h w ok known sound =
      Sends-IsHub h (maybe_snapshot now sent h) ok
        (maybe_snapshot_total now sent h ok.wired (IsSound-known h.world w known sound))

  -- Where every bird flies and there is one, somebody is alive.
  line_up_alive :
      (order : List ℕ) (w : World A)
      → order ≢ []
      → w.order ≡ order
      → IsWorld w
      → IsAllAlive w.birds
      → 0 < alive w
  unfolding alive
  line_up_alive [] w ne e ok flying = absurd (ne refl)
  line_up_alive (id ∷ ids) w ne e ok flying =
      let (b, found) = (rw (ok.keyed ∙ e) at (lookup-keys w.birds)).0 in
      alive_in_pos id b w.birds found (flying id b found)

  tick_countdown-Goes :
      (now sent : ℕ) (h : Hub A)
      → IsHub h
      → IsRace countdown h.world h.order h.players
      → Goes (tick_countdown now sent h)
  unfolding tick_countdown
  tick_countdown-Goes now sent h ok (some_there, (w, known, sound, order, flying)) =
      elim (Bool-cases (leb h.go_at now)) [
        | inr early ↦ rw (early, tick_countdown) (snapshot-Goes now sent h w ok known sound)
        | inl go ↦
            let h₁ = record h { st = racing } in
            let ok₁ : IsHub h₁ = record {
              roster = ok.roster;
              wired = ok.wired;
              race = (
                w,
                known,
                sound,
                line_up_alive h.order w some_there order sound flying,
                λ k b found _.
                    lookup-same_keys k b w.birds h.players
                      (sound.keyed ∙ order ∙ sym ok.roster.keyed) found,
              );
            } in
            rw (go, tick_countdown)
              (Sends-IsHub h₁ (broadcast sent h₁) ok₁
                (broadcast_total sent h₁ ok.wired (IsSound-known h.world w known sound)))
      ]

  IsCovered-ticked :
      (h : Hub A) (w v : World A)
      → IsCovered w.birds h.players
      → IsTick h.pending_flaps w v
      → IsCovered v.birds h.players
  IsCovered-ticked h w v covered (_, _, birds) k b e flying =
      let (c, found, alive_c) = ticked-flying h.pending_flaps w v k b (birds k) e flying in
      covered k c found alive_c

  pub after :
      (now sent : ℕ) (h : Hub A) (w v : World A)
      → h.world ≡ some w
      → step h.pending_flaps w ≡ some v
      → tick_race now sent h ≡ settle now sent v h
  unfolding tick_race
  after now sent h w v known steps =
      ap (λ o. o >>= λ u. step h.pending_flaps u >>= λ x. settle now sent x h) known
      ∙ ap (λ o. o >>= λ x. settle now sent x h) steps

  tick_race-Goes :
      FloatLaws f
      → (now sent : ℕ) (h : Hub A) → IsHub h
      → IsRace racing h.world h.order h.players
      → h.st ≡ racing
      → Goes (tick_race now sent h)
  unfolding settle
  tick_race-Goes laws now sent h ok (w, known, sound, _, covered) e =
      let (v, steps, sound', moves) = step-IsTick laws h.pending_flaps w sound in
      let h₁ = record h { pending_flaps = []; world = some v } in
      elim (Bool-cases (nat_beq (alive v) 0 || leb max_race_ticks v.tick)) [
        | inl over ↦
            let (h', runs, ok', _, _) =
              finish_race_total now sent h₁ v ok.roster ok.wired refl sound' in
            (h', after now sent h w v known steps ∙ rw (over, settle) runs, ok')
        | inr on ↦
            let ok₁ : IsHub h₁ = record {
              roster = ok.roster;
              wired = ok.wired;
              race =
                  subst (λ st. IsRace st (some v) h.order h.players) (sym e)
                    (v, refl, sound', ground arith, IsCovered-ticked h w v covered moves);
            } in
            let (h', runs, ok') = snapshot-Goes now sent h₁ v ok₁ refl sound' in
            (h', after now sent h w v known steps ∙ rw (on, settle) runs, ok')
      ]

  next_race-Goes :
      (ps : Map ℕ Session) (now sent : ℕ) (h : Hub A)
      → h.players ≡ ps
      → IsHub h
      → Goes (next_race ps now sent h)
  unfolding next_race
  next_race-Goes [] now sent h e ok = (
    idle h,
    refl,
    record {
      roster = ok.roster;
      wired = ok.wired;
      race = keys_nil h.players h.order ok.roster.keyed e;
    },
  )
  next_race-Goes (p ∷ ps) now sent h e ok =
      let (w, info, runs, up) = begin_countdown_total now h ok.roster.keyed ok.roster.distinct in
      let h₁ = begun now h w info in
      let ok₁ : IsHub h₁ = record {
        roster = ok.roster;
        wired = ok.wired;
        race = (keys_cons h.players h.order p ps ok.roster.keyed e, (w, refl, up.0, up.1, up.2));
      } in
      rw (runs, next_race)
        (Sends-IsHub h₁ (broadcast sent h₁) ok₁
          (broadcast_total sent h₁ ok.wired (IsSound-known (some w) w refl up.0)))

  tick_results-Goes :
      (now sent : ℕ) (h : Hub A)
      → IsHub h
      → IsRace finished h.world h.order h.players
      → Goes (tick_results now sent h)
  unfolding tick_results
  tick_results-Goes now sent h ok (_, (w, known, sound)) = elim (Bool-cases (leb h.finish_at now)) [
    | inr early ↦ rw (early, tick_results) (snapshot-Goes now sent h w ok known sound)
    | inl due ↦ rw (due, tick_results) (next_race-Goes h.players now sent h refl ok)
  ]

  tick_in-Goes :
      FloatLaws f
      → (st : RaceState) (now sent : ℕ) (h : Hub A) → h.st ≡ st
      → IsHub h
      → IsRace st h.world h.order h.players
      → Goes (tick_in st now sent h)
  unfolding tick_in
  tick_in-Goes laws waiting now sent h e ok race = (h, refl, ok)
  tick_in-Goes laws countdown now sent h e ok race = tick_countdown-Goes now sent h ok race
  tick_in-Goes laws racing now sent h e ok race = tick_race-Goes laws now sent h ok race e
  tick_in-Goes laws finished now sent h e ok race = tick_results-Goes now sent h ok race

  -- With the float laws, `tick` never faults on a hub with the invariant, whatever the state of the
  -- race, and keeps the invariant.
  pub tick_total :
      FloatLaws f
      → (now sent : ℕ) (h : Hub A) → IsHub h
      → (h' : Hub A) × (tick now sent h ≡ some h') × IsHub h'
  unfolding tick
  tick_total laws now sent h ok = tick_in-Goes laws h.st now sent h refl ok ok.race
