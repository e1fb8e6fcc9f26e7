-- ===== src/Flappy/Hub/Bystander.antt =====
-- What a tick, a flap and the race's part of a leave do to the players and connections of others.
use hmlb.Prelude.{
  ℕ, ◌≡◌, ◌||◌, [], ◌∷◌, Option, some, none, nat_eq, inl, inr, Bool-cases, leb, nat_beq, length,
}
use hmlb.Prelude.Options.{>>=-eq-some}
use hmlb.Prelude.Maps.{Map, lookup}
use hmlb.Flappy.Const.{max_race_ticks}
use hmlb.Flappy.Float.{Float}
use hmlb.Flappy.Hub.Defs.{Session, Hub}
use hmlb.Flappy.Hub.Handlers.{
  idle, begin_countdown, leave_line_up, leave_countdown, leave_flight, leave_race, leave_results,
  leave_in, tick_countdown, settle, tick_race, next_race, tick_results, tick_in, tick,
}
use hmlb.Flappy.Hub.Invariant.{IsOpen}
use hmlb.Flappy.Hub.Touch.{
  Same, Same-refl, Same-of_eq, Same-trans, broadcast-Same, maybe_snapshot-Same, finish_race-Same,
  begin_countdown-Same,
}
use hmlb.Flappy.Hub.Wiring.{IsUnused}
use hmlb.Flappy.Wire.{RaceState, waiting, countdown, racing, finished}
use hmlb.Flappy.World.Defs.{World, alive, is_racer, remove_bird, racer_count, kill_left}
use hmlb.Flappy.World.Step.{step}

module _ {A : Type 0} ⦃f : Float A⦄ where
  leave_line_up-Same :
      (o : Option (World A)) (sent : ℕ) (s : Session) (h h' : Hub A)
      → leave_line_up o sent s h ≡ some h'
      → Same h h'
  unfolding leave_line_up
  leave_line_up-Same none sent s h h' runs = Same-of_eq h h h' (Same-refl h) runs
  leave_line_up-Same (some w) sent s h h' runs = elim (Bool-cases (is_racer s.id w)) [
    | inr watches ↦ Same-of_eq h h h' (Same-refl h) (rw (watches, leave_line_up) at runs)
    | inl races ↦ elim (Bool-cases (nat_beq (racer_count (remove_bird s.id w)) 0)) [
      | inl last ↦ Same-of_eq h _ h' (Same-refl h) (rw (races, leave_line_up, last) at runs)
      | inr more ↦ broadcast-Same sent _ h' (rw (races, leave_line_up, more) at runs)
    ]
  ]

  leave_flight-Same :
      (w : World A) (now sent : ℕ) (s : Session) (h h' : Hub A)
      → leave_flight w now sent s h ≡ some h'
      → Same h h'
  unfolding leave_flight
  leave_flight-Same w now sent s h h' runs = elim (Bool-cases (is_racer s.id w)) [
    | inr watches ↦ Same-of_eq h h h' (Same-refl h) (rw (watches, leave_flight) at runs)
    | inl races ↦ elim (Bool-cases (nat_beq (alive (kill_left s.id w)) 0)) [
      | inl last ↦ finish_race-Same now sent _ h' (rw (races, leave_flight, last) at runs)
      | inr more ↦ broadcast-Same sent _ h' (rw (races, leave_flight, more) at runs)
    ]
  ]

  pub leave_in-Same :
      (st : RaceState) (now sent : ℕ) (s : Session) (h h' : Hub A)
      → leave_in st now sent s h ≡ some h'
      → Same h h'
  unfolding leave_in leave_countdown leave_race leave_results
  leave_in-Same waiting now sent s h h' runs = Same-of_eq h h h' (Same-refl h) runs
  leave_in-Same countdown now sent s h h' runs = leave_line_up-Same h.world sent s h h' runs
  leave_in-Same racing now sent s h h' runs =
      let (w, _, rest) = >>=-eq-some h.world _ runs in leave_flight-Same w now sent s h h' rest
  leave_in-Same finished now sent s h h' runs = elim (Bool-cases (nat_beq (length h.players) 0)) [
    | inl empty ↦ Same-of_eq h (idle h) h' (Same-refl h) (rw (empty, leave_results) at runs)
    | inr full ↦ Same-of_eq h h h' (Same-refl h) (rw (full, leave_results) at runs)
  ]

  settle-Same :
      (now sent : ℕ) (w : World A) (h h' : Hub A) → settle now sent w h ≡ some h' → Same h h'
  unfolding settle
  settle-Same now sent w h h' runs =
      elim (Bool-cases (nat_beq (alive w) 0 || leb max_race_ticks w.tick)) [
        | inl over ↦ finish_race-Same now sent _ h' (rw (over, settle) at runs)
        | inr on ↦ maybe_snapshot-Same now sent _ h' (rw (on, settle) at runs)
      ]

  next_race-Same :
      (ps : Map ℕ Session) (now sent : ℕ) (h h' : Hub A)
      → next_race ps now sent h ≡ some h'
      → Same h h'
  unfolding next_race
  next_race-Same [] now sent h h' runs = Same-of_eq h (idle h) h' (Same-refl h) runs
  next_race-Same (p ∷ ps) now sent h h' runs =
      let (h₁, begins, rest) = >>=-eq-some (begin_countdown now h) _ runs in
      Same-trans h h₁ h' (begin_countdown-Same now h h₁ begins) (broadcast-Same sent h₁ h' rest)

  tick_in-Same :
      (st : RaceState) (now sent : ℕ) (h h' : Hub A) → tick_in st now sent h ≡ some h' → Same h h'
  unfolding tick_in tick_countdown tick_race tick_results
  tick_in-Same waiting now sent h h' runs = Same-of_eq h h h' (Same-refl h) runs
  tick_in-Same countdown now sent h h' runs = elim (Bool-cases (leb h.go_at now)) [
    | inl go ↦ broadcast-Same sent _ h' (rw (go, tick_countdown) at runs)
    | inr early ↦ maybe_snapshot-Same now sent h h' (rw (early, tick_countdown) at runs)
  ]
  tick_in-Same racing now sent h h' runs =
      let (w, _, rest) = >>=-eq-some h.world _ runs in
      let (v, _, settles) = >>=-eq-some (step h.pending_flaps w) _ rest in
      settle-Same now sent v h h' settles
  tick_in-Same finished now sent h h' runs = elim (Bool-cases (leb h.finish_at now)) [
    | inr early ↦ maybe_snapshot-Same now sent h h' (rw (early, tick_results) at runs)
    | inl due ↦ next_race-Same h.players now sent h h' (rw (due, tick_results) at runs)
  ]

  pub tick-Same : (now sent : ℕ) (h h' : Hub A) → tick now sent h ≡ some h' → Same h h'
  unfolding tick
  tick-Same now sent h h' runs = tick_in-Same h.st now sent h h' runs

  -- Nothing happens to a connection `d`: it appears nowhere, stays open, stays without a player, or
  -- keeps its player, by the hub before and the hub after.
  pub record Spares (d : ℕ) (h h' : Hub A) : Type 0 where
    pub absent : lookup d h.conns ≡ none → lookup d h'.conns ≡ none
    pub stays_open : IsOpen h.conns d → IsOpen h'.conns d
    pub unused : IsUnused h.players d → IsUnused h'.players d
    pub seated :
        (k : ℕ) (s : Session)
        → lookup k h.players ≡ some s
        → s.conn ≡ d
        → (t : Session) × (lookup k h'.players ≡ some t) × (t.conn ≡ d)

  pub Same-Spares : (d : ℕ) (h h' : Hub A) → Same h h' → Spares d h h'
  Same-Spares d h h' (players, touch) = record {
    absent = touch.0 d;
    stays_open = touch.1 d;
    unused = λ u. rw players u;
    seated = λ k s here own. (s, rw players here, own);
  }
