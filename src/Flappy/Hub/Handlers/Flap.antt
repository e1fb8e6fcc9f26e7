-- ===== src/Flappy/Hub/Handlers/Flap.antt =====
-- internal/server/hub.go: a player flaps.
use hmlb.Prelude.{
  ℕ, ◌+◌, ◌/◌, true, false, Option, none, some, leb, nat_beq, if◌then◌else◌, nat_eq, text_eq, ◌>>=◌,
}
use hmlb.Prelude.Maps.{lookup, insert}
use hmlb.Flappy.Const.{flap_rate_limit}
use hmlb.Flappy.Float.{Float}
use hmlb.Flappy.Hub.Defs.{Session, Hub}
use hmlb.Flappy.Wire.{RaceState, waiting, countdown, racing, finished}
use hmlb.Flappy.World.Defs.{World, is_racer}

-- The flap counters of a session after one more event in that second.
abbrev pub counted : ℕ → Session → Session
counted sec s = if nat_beq s.flap_sec sec then s else record s { flap_sec = sec; flap_count = 0 }

module _ {A : Type 0} ⦃f : Float A⦄ where
  abbrev pub put_session : ℕ → Session → Hub A → Hub A
  put_session id s h = elim (lookup id h.players) [
    | none ↦ record h { gone = insert id s h.gone }
    | some _ ↦ record h { players = insert id s h.players }
  ]

  -- The session behind a pointer.
  unfoldable pub find_session : ℕ → Hub A → Option Session
  find_session id h = elim (lookup id h.players) [ none ↦ lookup id h.gone | some s ↦ some s ]

  -- A racer's flap waits for the next tick.
  abbrev pub pend : ℕ → World A → Hub A → Hub A
  pend id w h =
      if is_racer id w then record h { pending_flaps = insert id tt h.pending_flaps } else h

  -- `s` has its counters for this second.
  unfoldable pub count_flap : ℕ → Session → Hub A → Option (Hub A)
  count_flap id s h = elim (leb flap_rate_limit s.flap_count) [
    | true ↦ some (put_session id s h)
    | false ↦ do
      w ← h.world
      some (pend s.id w (put_session id (record s { flap_count = s.flap_count + 1 }) h))
  ]

  unfoldable pub flap_in_race : ℕ → ℕ → Hub A → Option (Hub A)
  unfolding find_session count_flap
  flap_in_race now id h = do s ← find_session id h; count_flap id (counted (now / 1000) s) h

  unfoldable pub flap_in : RaceState → ℕ → ℕ → Hub A → Option (Hub A)
  unfolding flap_in_race
  flap_in waiting now id h = some h
  flap_in countdown now id h = some h
  flap_in racing now id h = flap_in_race now id h
  flap_in finished now id h = some h

  unfoldable pub handle_flap : ℕ → Option ℕ → Hub A → Option (Hub A)
  unfolding flap_in
  handle_flap now none h = some h
  handle_flap now (some id) h = flap_in h.st now id h
