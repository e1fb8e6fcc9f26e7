-- ===== src/Flappy/Client/Game.antt =====
-- internal/client/game.go, net.go and session.go: the game's connection, frame by frame. Drawing, the
-- dial itself and the start screen's leaderboard are not modelled; what they deliver is an argument.
pub mod Retry
use hmlb.Prelude.{
  ℕ, zero, suc, ◌+◌, ◌≤◌, ◌<◌, ◌≡◌, refl, ap, ◌∙◌, Bool, true, false, not, ◌&&◌, ◌||◌, ltb, leb,
  arith, inl, inr, Bool-cases, if◌then◌else◌, List, [], ◌∷◌, ◌++◌, Text, text, length, Option, none,
  some, nat_beq,
}
use hmlb.Prelude.Decimal.{decimal}
use hmlb.Prelude.Int.{ℤ, pos}
use hmlb.Flappy.Client.Backoff.{retry_delay}
use hmlb.Flappy.Client.Clock.{Clock, sample, new_clock}
use hmlb.Flappy.Client.Entry.{apply_name_input}
use hmlb.Flappy.Client.Ring.{push, reset}
use hmlb.Flappy.Float.{Float}
use hmlb.Flappy.Wire.{Snapshot, WelcomeMsg}

pub record Sess : Type 0 where
  pub id : ℕ
  pub name : Text
  pub pal : ℕ
  pub acc : ℕ
  pub spect : Bool

abbrev pub no_sess : Sess
no_sess = record { id = 0; name = []; pal = 0; acc = 0; spect = false }

-- `Set`, with what a welcome brings.
unfoldable pub set_sess : WelcomeMsg → Sess → Sess
set_sess w s = record {
  id = w.you;
  name = w.name;
  pal = w.bird.palette;
  acc = w.bird.accessory;
  spect = w.spect;
}

-- What breaks a connection: the server's rejection, or anything else.
pub data NetError : Type 0 where
  fatal : Text → NetError
  lost : NetError

-- What a finished dial and join give.
pub data DialResult : Type 0 where
  dialed : DialResult
  failed : Text → DialResult

-- The loops below put no bound on the number of attempts, as the source does not.
pub record Game (A : Type 0) : Type 0 where
  pub connected : Bool
  pub clk : Clock A
  pub ring : List (Snapshot A)
  pub name : Text
  pub frame : ℕ
  pub fatal_msg : Text
  pub last_err : Text
  pub entering : Bool
  pub typed : Text
  pub entry_err : Bool
  pub dialing : Bool
  pub attempts : ℕ
  pub next_try : Option ℕ
  pub ever_connected : Bool

-- What one frame finds: the typed input, the channels' contents, the clocks.
pub record Input (A : Type 0) : Type 0 where
  pub chars : Text
  pub backspace : Bool
  pub enter : Bool
  pub snaps : List (Snapshot A)
  pub err : Option NetError
  pub flap : Bool
  pub dial : Option DialResult
  pub local : ℤ
  pub now : ℕ

-- What one frame sends out.
pub record Output : Type 0 where
  pub flaps : Bool
  pub dials : Option Text

abbrev pub quiet : Output
quiet = record { flaps = false; dials = none }

abbrev pub is_empty : Text → Bool
is_empty [] = true
is_empty (c ∷ s) = false

abbrev is_due : ℕ → Option ℕ → Bool
is_due now none = true
is_due now (some t) = leb t now

module _ {A : Type 0} ⦃f : Float A⦄ where
  unfoldable pub new_game : Text → Game A
  new_game name = record {
    connected = false;
    clk = new_clock;
    ring = [];
    name = name;
    frame = 0;
    fatal_msg = [];
    last_err = [];
    entering = is_empty name;
    typed = [];
    entry_err = false;
    dialing = false;
    attempts = 0;
    next_try = none;
    ever_connected = false;
  }

  unfoldable pub schedule_retry : ℕ → Game A → Game A
  schedule_retry now g =
      let n = g.attempts + 1 in record g { attempts = n; next_try = some (now + retry_delay n) }

  unfoldable pub fold_snaps : ℤ → List (Snapshot A) → Game A → Game A
  fold_snaps local [] g = g
  fold_snaps local (s ∷ ss) g =
      fold_snaps local ss (record g { clk = sample (pos s.now) local g.clk; ring = push s g.ring })

  unfoldable pub pump_net : Input A → Game A → Game A × Output
  unfolding fold_snaps schedule_retry
  pump_net i g =
      let g₁ = fold_snaps i.local i.snaps g in
      elim i.err [
        | some e ↦ elim e [
          | fatal msg ↦ (record g₁ { connected = false; fatal_msg = msg }, quiet)
          | lost ↦ (
            schedule_retry i.now
                (record g₁ { connected = false; last_err = text "connection lost" }),
            quiet,
          )
        ]
        | none ↦ (g₁, record quiet { flaps = i.flap })
      ]

  -- The dial itself runs beside the game, which only looks for its result.
  unfoldable pub reconnect : Sess → Input A → Game A → Game A × Output
  unfolding schedule_retry
  reconnect sess i g = elim g.dialing [
    | false ↦
        if is_due i.now g.next_try
        then (
          record g { dialing = true },
          record quiet { dials = some (if is_empty sess.name then g.name else sess.name) },
        )
        else (g, quiet)
    | true ↦ elim i.dial [
      | none ↦ (g, quiet)
      | some r ↦ elim r [
        | failed msg ↦ (schedule_retry i.now (record g { dialing = false; last_err = msg }), quiet)
        | dialed ↦ (
          record g {
            dialing = false;
            connected = true;
            attempts = 0;
            last_err = [];
            ever_connected = true;
            ring = reset g.ring;
          },
          quiet,
        )
      ]
    ]
  ]

  unfoldable pub enter_name : (ℕ → Bool) → Input A → Game A → Game A
  enter_name is_print i g =
      let cleared = if ltb 0 (length i.chars) || i.backspace then false else g.entry_err in
      let (typed, submitted) = apply_name_input is_print g.typed i.chars i.backspace i.enter in
      if is_empty submitted
      then record g { typed = typed; entry_err = if i.enter then true else cleared }
      else record g { typed = typed; entry_err = cleared; name = submitted; entering = false }

  -- A connection that breaks in this frame is dialled again in the same frame, if a try is due.
  unfoldable pub redial : Sess → Input A → Game A → Output → Game A × Output
  unfolding reconnect
  redial sess i g out =
      if not g.connected && is_empty g.fatal_msg then reconnect sess i g else (g, out)

  unfoldable pub online : Sess → Input A → Game A → Game A × Output
  unfolding pump_net redial
  online sess i g = elim g.connected [
    | true ↦ let (g', out) = pump_net i g in redial sess i g' out
    | false ↦ redial sess i g quiet
  ]

  abbrev pub next_frame : Game A → Game A
  next_frame g = record g { frame = g.frame + 1 }

  unfoldable pub update : (ℕ → Bool) → Sess → Input A → Game A → Game A × Output
  unfolding online enter_name
  update is_print sess i g = elim g.entering [
    | true ↦ (enter_name is_print i (next_frame g), quiet)
    | false ↦ elim (is_empty g.fatal_msg) [
      | false ↦ (next_frame g, quiet)
      | true ↦ online sess i (next_frame g)
    ]
  ]

  unfoldable pub reconn_status : Game A → Text × Text
  reconn_status g =
      if not g.ever_connected
      then (text "Connecting", text "waiting for the server…")
      else if nat_beq g.attempts 0
      then (text "Reconnecting", text "connection lost — retrying…")
      else (
        text "Reconnecting",
        text "attempt " ++ (decimal g.attempts ++ (text " — " ++ g.last_err)),
      )
