-- ===== src/Flappy/Hub/Handlers/Join.antt =====
-- internal/server/hub.go: a player joins.
use hmlb.Prelude.{
  ℕ, ◌+◌, Bool, true, false, [], ◌∷◌, ◌++◌, Option, some, Text, text, leb, length, if◌then◌else◌,
  nat_eq, text_eq, ◌>>=◌,
}
use hmlb.Prelude.Maps.{insert}
use hmlb.Prelude.Words.{u64}
use hmlb.Flappy.Birds.{Bird, random_bird}
use hmlb.Flappy.Float.{Float}
use hmlb.Flappy.Hub.Defs.{Session, Hub, unique_name, bird_taken}
use hmlb.Flappy.Hub.Frames.{broadcast, reject, send_welcome}
use hmlb.Flappy.Name.{validate_name}
use hmlb.Flappy.Store.Defs.{lookup_bird, remember_bird}
use hmlb.Flappy.Wire.{RaceState, waiting, countdown, racing, finished}
use hmlb.Flappy.Hub.Handlers.Race.{admit_racer, begin_countdown}

-- What a join is answered with: the session's id, or why it is refused.
pub data JoinReply : Type 0 where
  joined : ℕ → JoinReply
  refused : Text → JoinReply

abbrev pub new_session : ℕ → Text → Bird → ℕ → Session
new_session id name bird c = record {
  id = id;
  name = name;
  bird = bird;
  conn = c;
  flap_sec = 0;
  flap_count = 0;
}

module _ {A : Type 0} ⦃f : Float A⦄ where
  -- A bird for a username: the remembered one, or a new one that is then remembered.
  unfoldable pub assign_bird : Text → Hub A → Bird × Hub A
  assign_bird name h =
      let (bird, known) = lookup_bird name h.store in
      if known
      then (bird, h)
      else let (rolled, rng) = random_bird h.rng (bird_taken h.players) in
        (rolled, record h { rng = rng; store = remember_bird name rolled h.store })

  abbrev pub enrolled : Session → Hub A → Hub A
  enrolled s h = record h {
    players = insert s.id s h.players;
    names = insert s.name s.id h.names;
    order = h.order ++ s.id ∷ [];
  }

  -- The race state decides what a newcomer does.
  unfoldable pub enter_race : RaceState → Session → ℕ → Hub A → Option (Hub A)
  unfolding begin_countdown admit_racer
  enter_race waiting s now h = begin_countdown now h
  enter_race countdown s now h = admit_racer s h
  enter_race racing s now h = some h
  enter_race finished s now h = some h

  unfoldable pub admit : ℕ → ℕ → ℕ → Text → Hub A → Option (Hub A × JoinReply)
  unfolding enter_race
  admit now sent c name h = do
    let id = u64 (h.next_id + 1)
    let (bird, h₁) = assign_bird name (record h { next_id = id })
    let s = new_session id name bird c
    h₂ ← enter_race h₁.st s now (enrolled s h₁)
    h₃ ← send_welcome s now h₂
    h₄ ← broadcast sent h₃
    some (h₄, joined id)

  unfoldable pub handle_join : (ℕ → Bool) → ℕ → ℕ → ℕ → Text → Hub A → Option (Hub A × JoinReply)
  unfolding admit
  handle_join is_print now sent c name h = elim (leb h.max_players (length h.players)) [
    | true ↦ do h' ← reject c (text "server full") h; some (h', refused (text "server full"))
    | false ↦
        let (clean, fine) = validate_name is_print name in
        elim fine [
          | false ↦ do
            h' ← reject c (text "please pick a name (1-16 characters)") h
            some (h', refused (text "invalid name"))
          | true ↦ do name' ← unique_name h.names clean; admit now sent c name' h
        ]
  ]
