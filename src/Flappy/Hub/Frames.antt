-- ===== src/Flappy/Hub/Frames.antt =====
-- internal/server/hub.go: the frames that the hub sends. What can fault in the source is `none`.
use hmlb.Prelude.{
  ℕ, ◌+◌, Bool, true, false, ◌||◌, List, [], ◌∷◌, Option, none, some, Text, leb, nat_beq, length,
  if◌then◌else◌, nat_eq, text_eq, ◌>>=◌,
}
use hmlb.Prelude.Int.{pos}
use hmlb.Prelude.Maps.{Map, lookup}
use hmlb.Flappy.Birds.{bird_eq}
use hmlb.Flappy.Conn.{Conn, enqueue_to, close_at}
use hmlb.Flappy.Float.{Float}
use hmlb.Flappy.Wire.{Snapshot, WelcomeMsg, Frame, welcome, snapshot, error}
use hmlb.Flappy.World.Defs.{World, bird_snaps, pipe_snaps, is_racer}
use hmlb.Flappy.Hub.Defs.{Session, Hub, is_waiting, is_racing, is_finished}

module _ {A : Type 0} ⦃f : Float A⦄ where
  unfoldable pub is_racer_in : ℕ → Option (World A) → Bool
  is_racer_in id none = false
  is_racer_in id (some w) = is_racer id w

  unfoldable pub spectators_of : List ℕ → Map ℕ Session → Option (World A) → ℕ
  unfolding is_racer_in
  spectators_of [] players w = 0
  spectators_of (id ∷ ids) players w =
      (elim (lookup id players) [ none ↦ 0 | some s ↦ if is_racer_in id w then 0 else 1 ])
      + spectators_of ids players w

  unfoldable pub spectator_count : Hub A → ℕ
  spectator_count h = spectators_of h.order h.players h.world

  -- The snapshot before the world's part is filled in.
  abbrev pub bare_snapshot : ℕ → Hub A → Snapshot A
  bare_snapshot sent h = record {
    now = sent;
    tick = 0;
    st = h.st;
    go_at = h.go_at;
    theme = h.theme;
    seed = h.seed;
    dist = f.lit (pos 0) 0;
    wait = spectator_count h;
    birds = [];
    pipes = [];
    res = if is_finished h.st then h.results else [];
  }

  unfoldable pub with_world : Snapshot A → Option (World A) → Option (Snapshot A)
  with_world snap none = some snap
  with_world snap (some w) = do
    birds ← bird_snaps w
    some (record snap { tick = w.tick; dist = w.dist; birds = birds; pipes = pipe_snaps w })

  unfoldable pub make_snapshot : ℕ → Hub A → Option (Snapshot A)
  unfolding with_world
  make_snapshot sent h = with_world (bare_snapshot sent h) h.world

  -- The same frame to every player, in join order.
  unfoldable pub send_each :
      Frame A → List ℕ → Map ℕ Session → Map ℕ (Conn A) → Option (Map ℕ (Conn A))
  send_each b [] players conns = some conns
  send_each b (id ∷ ids) players conns = elim (lookup id players) [
    | none ↦ send_each b ids players conns
    | some s ↦ do conns' ← enqueue_to s.conn b conns; send_each b ids players conns'
  ]

  unfoldable pub broadcast : ℕ → Hub A → Option (Hub A)
  broadcast sent h = elim (is_waiting h.st || nat_beq (length h.players) 0) [
    | true ↦ some h
    | false ↦ do
      snap ← make_snapshot sent h
      conns ← send_each (snapshot snap) h.order h.players h.conns
      some (record h { last_snap = sent; conns = conns })
  ]

  unfoldable pub maybe_snapshot : ℕ → ℕ → Hub A → Option (Hub A)
  maybe_snapshot now sent h =
      if leb (h.last_snap + h.snapshot_every) now then broadcast sent h else some h

  unfoldable pub reject : ℕ → Text → Hub A → Option (Hub A)
  reject c msg h = do
    told ← enqueue_to c (error msg) h.conns
    closed ← close_at c told
    some (record h { conns = closed })

  abbrev pub welcome_msg : Session → ℕ → Hub A → WelcomeMsg
  welcome_msg s now h = record {
    you = s.id;
    name = s.name;
    bird = s.bird;
    now = now;
    st = h.st;
    go_at = if is_waiting h.st then 0 else h.go_at;
    theme = h.theme;
    seed = if is_waiting h.st then 0 else h.seed;
    spect = is_racing h.st || is_finished h.st;
  }

  unfoldable pub send_welcome : Session → ℕ → Hub A → Option (Hub A)
  send_welcome s now h = do
    conns ← enqueue_to s.conn (welcome (welcome_msg s now h)) h.conns
    some (record h { conns = conns })
