-- ===== src/Flappy/Hub/Invariant.antt =====
-- What holds of the hub between two events, part by part: the roster of players, their connections,
-- the race.
use hmlb.Prelude.{ℕ, ◌≤◌, ◌<◌, ◌≡◌, ◌≢◌, false, List, [], Option, some, Text, nat_eq, text_eq}
use hmlb.Prelude.All.{Distinct}
use hmlb.Prelude.Maps.{Map, keys, lookup}
use hmlb.Flappy.Conn.{Conn}
use hmlb.Flappy.Const.{flap_rate_limit}
use hmlb.Flappy.Hub.Defs.{Session, Hub}
use hmlb.Flappy.Wire.{RaceState, waiting, countdown, racing, finished}
use hmlb.Flappy.World.Defs.{BirdState, World, alive}
use hmlb.Flappy.World.Total.{IsWorld}

-- The players are those of the join order; an id is never 0 and never past the last one given out; a
-- player has no more flaps in a second than are allowed, and a player's name leads back to the id, so no two players share one.
pub record IsRoster (players : Map ℕ Session) (order : List ℕ) (names : Map Text ℕ) (last : ℕ)
    : Type 0 where
  pub keyed : keys players ≡ order
  pub distinct : Distinct order
  pub ids : (k : ℕ) (s : Session) → lookup k players ≡ some s → s.id ≡ k
  pub positive : (k : ℕ) (s : Session) → lookup k players ≡ some s → 0 < k
  pub bounded : (k : ℕ) (s : Session) → lookup k players ≡ some s → k ≤ last
  pub paced : (k : ℕ) (s : Session) → lookup k players ≡ some s → s.flap_count ≤ flap_rate_limit
  pub named : (k : ℕ) (s : Session) → lookup k players ≡ some s → lookup s.name names ≡ some k

module _ {A : Type 0} where
  abbrev pub IsOpen : Map ℕ (Conn A) → ℕ → Type 0
  IsOpen conns c = (k : Conn A) × (lookup c conns ≡ some k) × (k.closed ≡ false)

  -- Every player has a connection that is open, and no other player's.
  pub record IsWired (players : Map ℕ Session) (conns : Map ℕ (Conn A)) : Type 0 where
    pub open_conn : (k : ℕ) (s : Session) → lookup k players ≡ some s → IsOpen conns s.conn
    pub injective :
        (j k : ℕ) (s t : Session)
        → lookup j players ≡ some s
        → lookup k players ≡ some t
        → s.conn ≡ t.conn
        → j ≡ k

  abbrev pub IsAllAlive : Map ℕ (BirdState A) → Type 0
  IsAllAlive birds = (k : ℕ) (b : BirdState A) → lookup k birds ≡ some b → b.dead ≡ false

  -- A bird in flight has its player.
  abbrev pub IsCovered : Map ℕ (BirdState A) → Map ℕ Session → Type 0
  IsCovered birds players =
      (k : ℕ) (b : BirdState A)
      → lookup k birds ≡ some b
      → b.dead ≡ false
      → (s : Session) × (lookup k players ≡ some s)

  -- Waiting means that nobody is there. In the countdown exactly the players have birds, all alive. In
  -- the race somebody flies. With the results somebody watches.
  abbrev pub IsRace : RaceState → Option (World A) → List ℕ → Map ℕ Session → Type 0
  IsRace waiting w order players = order ≡ []
  IsRace countdown w order players =
      (order ≢ [])
      × ((v : World A) × (w ≡ some v) × IsWorld v × (v.order ≡ order) × IsAllAlive v.birds)
  IsRace racing w order players =
      (v : World A) × (w ≡ some v) × IsWorld v × (0 < alive v) × IsCovered v.birds players
  IsRace finished w order players = (order ≢ []) × ((v : World A) × (w ≡ some v) × IsWorld v)

  pub record IsHub (h : Hub A) : Type 0 where
    pub roster : IsRoster h.players h.order h.names h.next_id
    pub wired : IsWired h.players h.conns
    pub race : IsRace h.st h.world h.order h.players
