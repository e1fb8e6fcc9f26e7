-- ===== src/Flappy/Hub/Handlers/Leave.antt =====
-- internal/server/hub.go: a player leaves.
use hmlb.Prelude.{
  ℕ, true, false, Option, none, some, nat_beq, length, if◌then◌else◌, nat_eq, text_eq, ◌>>=◌,
}
use hmlb.Prelude.Maps.{insert, delete}
use hmlb.Prelude.Removal.{remove_first}
use hmlb.Flappy.Conn.{close_at}
use hmlb.Flappy.Float.{Float}
use hmlb.Flappy.Hub.Defs.{Session, Hub}
use hmlb.Flappy.Hub.Frames.{broadcast}
use hmlb.Flappy.Wire.{RaceState, waiting, countdown, racing, finished}
use hmlb.Flappy.World.Defs.{World, remove_bird, kill_left, alive, racer_count, is_racer}
use hmlb.Flappy.Hub.Handlers.Race.{idle, finish_race}
use hmlb.Flappy.Hub.Handlers.Flap.{find_session}

module _ {A : Type 0} ⦃f : Float A⦄ where
  abbrev pub departed : Session → Hub A → Hub A
  departed s h = record h {
    players = delete s.id h.players;
    gone = insert s.id s h.gone;
    names = delete s.name h.names;
    order = remove_first s.id h.order;
  }

  -- A racer leaves the line-up; the last one to leave ends the countdown.
  unfoldable pub leave_line_up : Option (World A) → ℕ → Session → Hub A → Option (Hub A)
  leave_line_up none sent s h = some h
  leave_line_up (some w) sent s h = elim (is_racer s.id w) [
    | false ↦ some h
    | true ↦
        let w' = remove_bird s.id w in
        let h' = record h { world = some w'; race_info = delete s.id h.race_info } in
        elim (nat_beq (racer_count w') 0) [ true ↦ some (idle h') | false ↦ broadcast sent h' ]
  ]

  unfoldable pub leave_countdown : ℕ → Session → Hub A → Option (Hub A)
  unfolding leave_line_up
  leave_countdown sent s h = leave_line_up h.world sent s h

  -- A racer's bird dies; the last one to fall ends the race.
  unfoldable pub leave_flight : World A → ℕ → ℕ → Session → Hub A → Option (Hub A)
  leave_flight w now sent s h = elim (is_racer s.id w) [
    | false ↦ some h
    | true ↦
        let w' = kill_left s.id w in
        let h' = record h { world = some w' } in
        elim (nat_beq (alive w') 0) [ true ↦ finish_race now sent h' | false ↦ broadcast sent h' ]
  ]

  unfoldable pub leave_race : ℕ → ℕ → Session → Hub A → Option (Hub A)
  unfolding leave_flight
  leave_race now sent s h = do w ← h.world; leave_flight w now sent s h

  unfoldable pub leave_results : Hub A → Hub A
  leave_results h = if nat_beq (length h.players) 0 then idle h else h

  unfoldable pub leave_in : RaceState → ℕ → ℕ → Session → Hub A → Option (Hub A)
  unfolding leave_countdown leave_race leave_results
  leave_in waiting now sent s h = some h
  leave_in countdown now sent s h = leave_countdown sent s h
  leave_in racing now sent s h = leave_race now sent s h
  leave_in finished now sent s h = some (leave_results h)

  unfoldable pub close_conn : Option ℕ → Hub A → Option (Hub A)
  close_conn none h = some h
  close_conn (some c) h = do conns ← close_at c h.conns; some (record h { conns = conns })

  unfoldable pub leave_session : ℕ → ℕ → Option ℕ → Session → Hub A → Option (Hub A)
  unfolding leave_in close_conn
  leave_session now sent c s h = do h' ← leave_in h.st now sent s (departed s h); close_conn c h'

  unfoldable pub handle_leave : ℕ → ℕ → Option ℕ → Option ℕ → Hub A → Option (Hub A)
  unfolding find_session leave_session
  handle_leave now sent c none h = close_conn c h
  handle_leave now sent c (some id) h = do s ← find_session id h; leave_session now sent c s h
