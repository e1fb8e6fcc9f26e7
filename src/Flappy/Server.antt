-- ===== src/Flappy/Server.antt =====
-- internal/server/client.go and the transport-facing part of hub.go: the goroutines that read the
-- connections, beside the hub. A goroutine's step is atomic with the event that it submits, since it
-- waits for a join's reply and nothing else concerns its connection in between.
pub mod Link
pub mod Safety
pub mod Runs
use hmlb.Prelude.{
  ℕ, Bool, true, false, Option, none, some, Text, nat_beq, if◌then◌else◌, ◌>>=◌, nat_eq, text_eq,
  [],
}
use hmlb.Flappy.Float.{Float}
use hmlb.Flappy.Hub.Defs.{Hub}
use hmlb.Flappy.Hub.Events.{Event, connect, flap, leave, ticker, dispatch}
use hmlb.Flappy.Hub.Handlers.{JoinReply, joined, refused, handle_join}

abbrev pub t_join : ℕ
t_join = 1

abbrev pub t_flap : ℕ
t_flap = 2

pub record ClientFrame : Type 0 where
  pub t : ℕ
  pub name : Text

-- What `ReadMessage` and the JSON decoder give.
pub data Incoming : Type 0 where
  broken garbled : Incoming
  decoded : ClientFrame → Incoming

-- `readFrame`: `none` for a transport error.
unfoldable pub read_frame : Incoming → Option ClientFrame
read_frame broken = none
read_frame garbled = some (record { t = 0; name = [] })
read_frame (decoded f) = some f

-- Where `readPump` of a connection stands. `stuck` is one that waits for the reply to a lost join.
pub data Reader : Type 0 where
  unopened joining stuck stopped : Reader
  playing : ℕ → Reader

pub record Server (A : Type 0) : Type 0 where
  pub hub : Hub A
  pub readers : ℕ → Reader

-- When an event is submitted: the clock, and whether the event is lost because the hub's queue is full.
pub record Moment : Type 0 where
  pub now : ℕ
  pub sent : ℕ
  pub lost : Bool

pub data Action : Type 0 where
  opens : ℕ → Action
  receives : ℕ → Incoming → Moment → Moment → Action
  ticks : ℕ → ℕ → Action

abbrev pub set_reader : (ℕ → Reader) → ℕ → Reader → ℕ → Reader
set_reader f c r d = if nat_beq d c then r else f d

module _ {A : Type 0} ⦃f : Float A⦄ (is_print : ℕ → Bool) where
  unfoldable pub submit : Bool → Event → Hub A → Option (Hub A)
  unfolding dispatch
  submit true e h = some h
  submit false e h = dispatch is_print e h

  abbrev pub placed : ℕ → Reader → Hub A → Server A → Server A
  placed c r h s = record { hub = h; readers = set_reader s.readers c r }

  -- The deferred call of `leave`, at every end of `readPump`.
  unfoldable pub stop : Moment → ℕ → Option ℕ → Server A → Option (Server A)
  unfolding submit
  stop m c sess s = do
    h' ← submit m.lost (leave m.now m.sent (some c) sess) s.hub
    some (placed c stopped h' s)

  -- What follows the reply to a join.
  unfoldable pub answer : Moment → ℕ → JoinReply → Hub A → Server A → Option (Server A)
  unfolding stop
  answer m c (joined id) h s = some (placed c (playing id) h s)
  answer m c (refused msg) h s = stop m c none (record s { hub = h })

  -- `join`: where the event is lost, no reply ever comes.
  unfoldable pub ask : Bool → Moment → Moment → ℕ → Text → Server A → Option (Server A)
  unfolding answer
  ask true m n c name s = some (placed c stuck s.hub s)
  ask false m n c name s = do
    (h', reply) ← handle_join is_print m.now m.sent c name s.hub
    answer n c reply h' s

  unfoldable pub first_frame :
      Option ClientFrame → Moment → Moment → ℕ → Server A → Option (Server A)
  unfolding ask stop
  first_frame none m n c s = stop n c none s
  first_frame (some fr) m n c s =
      if nat_beq fr.t t_join then ask m.lost m n c fr.name s else stop n c none s

  unfoldable pub later_frame :
      Option ClientFrame → Moment → Moment → ℕ → ℕ → Server A → Option (Server A)
  unfolding submit stop
  later_frame none m n c id s = stop n c (some id) s
  later_frame (some fr) m n c id s =
      if nat_beq fr.t t_flap
      then submit m.lost (flap m.now (some id)) s.hub >>= (λ h'. some (record s { hub = h' }))
      else some s

  unfoldable pub receive : Reader → Incoming → Moment → Moment → ℕ → Server A → Option (Server A)
  unfolding first_frame later_frame read_frame
  receive unopened i m n c s = some s
  receive stuck i m n c s = some s
  receive stopped i m n c s = some s
  receive joining i m n c s = first_frame (read_frame i) m n c s
  receive (playing id) i m n c s = later_frame (read_frame i) m n c id s

  -- The HTTP handler makes a connection and starts its goroutines.
  unfoldable pub serve_conn : Reader → ℕ → Server A → Option (Server A)
  unfolding dispatch
  serve_conn unopened c s = do
    h' ← dispatch is_print (connect c) s.hub
    some (placed c joining h' s)
  serve_conn _ c s = some s

  -- One step of a goroutine, or of the ticker in `Run`.
  unfoldable pub act : Action → Server A → Option (Server A)
  unfolding receive serve_conn dispatch
  act (opens c) s = serve_conn (s.readers c) c s
  act (receives c i m n) s = receive (s.readers c) i m n c s
  act (ticks now sent) s = do
    h' ← dispatch is_print (ticker now sent) s.hub
    some (record s { hub = h' })
