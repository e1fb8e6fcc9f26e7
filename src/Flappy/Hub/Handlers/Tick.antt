-- ===== src/Flappy/Hub/Handlers/Tick.antt =====
-- internal/server/hub.go: the clock ticks.
use hmlb.Prelude.{
  ℕ, true, false, ◌||◌, [], ◌∷◌, Option, some, leb, nat_beq, if◌then◌else◌, nat_eq, text_eq, ◌>>=◌,
}
use hmlb.Prelude.Maps.{Map}
use hmlb.Flappy.Const.{max_race_ticks}
use hmlb.Flappy.Float.{Float}
use hmlb.Flappy.Hub.Defs.{Session, Hub}
use hmlb.Flappy.Hub.Frames.{broadcast, maybe_snapshot}
use hmlb.Flappy.Wire.{RaceState, waiting, countdown, racing, finished}
use hmlb.Flappy.World.Defs.{World, alive}
use hmlb.Flappy.World.Step.{step}
use hmlb.Flappy.Hub.Handlers.Race.{idle, begin_countdown, finish_race}

module _ {A : Type 0} ⦃f : Float A⦄ where
  unfoldable pub tick_countdown : ℕ → ℕ → Hub A → Option (Hub A)
  tick_countdown now sent h =
      if leb h.go_at now
      then broadcast sent (record h { st = racing })
      else maybe_snapshot now sent h

  -- After a step: the race is over, or a snapshot may be due.
  unfoldable pub settle : ℕ → ℕ → World A → Hub A → Option (Hub A)
  settle now sent w h = elim (nat_beq (alive w) 0 || leb max_race_ticks w.tick) [
    | true ↦ finish_race now sent (record h { pending_flaps = []; world = some w })
    | false ↦ maybe_snapshot now sent (record h { pending_flaps = []; world = some w })
  ]

  unfoldable pub tick_race : ℕ → ℕ → Hub A → Option (Hub A)
  unfolding settle
  tick_race now sent h = do w ← h.world; w' ← step h.pending_flaps w; settle now sent w' h

  -- The end of the results window.
  unfoldable pub next_race : Map ℕ Session → ℕ → ℕ → Hub A → Option (Hub A)
  next_race [] now sent h = some (idle h)
  next_race (p ∷ ps) now sent h = do h' ← begin_countdown now h; broadcast sent h'

  unfoldable pub tick_results : ℕ → ℕ → Hub A → Option (Hub A)
  unfolding next_race
  tick_results now sent h = elim (leb h.finish_at now) [
    | false ↦ maybe_snapshot now sent h
    | true ↦ next_race h.players now sent h
  ]

  unfoldable pub tick_in : RaceState → ℕ → ℕ → Hub A → Option (Hub A)
  unfolding tick_countdown tick_race tick_results
  tick_in waiting now sent h = some h
  tick_in countdown now sent h = tick_countdown now sent h
  tick_in racing now sent h = tick_race now sent h
  tick_in finished now sent h = tick_results now sent h

  unfoldable pub tick : ℕ → ℕ → Hub A → Option (Hub A)
  unfolding tick_in
  tick now sent h = tick_in h.st now sent h
