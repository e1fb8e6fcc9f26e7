-- ===== src/Flappy/Client/Net.antt =====
-- internal/client/net.go: the connection's channels and the goroutines that fill and empty them. What
-- the websocket and the JSON decoder give is an argument.
pub mod Delivery
pub mod Rejection
use hmlb.Prelude.{
  ℕ, Bool, true, false, List, [], ◌∷◌, ◌++◌, Option, none, some, Text, text, length, ltb, drop,
  if◌then◌else◌,
}
use hmlb.Flappy.Client.Game.{Sess, set_sess, NetError, fatal, lost}
use hmlb.Flappy.Const.{ring_len}
use hmlb.Flappy.Wire.{Snapshot, WelcomeMsg}

abbrev pub flap_msg : Text
flap_msg = text "{\"t\":2}"

abbrev pub cmd_len : ℕ
cmd_len = 8

-- The buffered channels, whether the reader has stopped, and whether the socket is open.
pub record Net (A : Type 0) : Type 0 where
  pub cmd_ch : List Text
  pub snap_ch : List (Snapshot A)
  pub err_ch : Option NetError
  pub closed : Bool
  pub ws_open : Bool

-- What a read gives, by the frame's type; `none` where its JSON is not of that type.
pub data Received (A : Type 0) : Type 0 where
  broken garbled unknown : Received A
  snapshot_frame : Option (Snapshot A) → Received A
  welcome_frame : Option WelcomeMsg → Received A
  error_frame : Option Text → Received A

abbrev pub first_error : Option NetError → NetError → Option NetError
first_error none e = some e
first_error (some e₀) e = some e₀

unfoldable pub on_welcome : Option WelcomeMsg → Sess → Sess
on_welcome none s = s
on_welcome (some w) s = set_sess w s

module _ {A : Type 0} where
  -- `Dial`, where it succeeds.
  abbrev pub dial_net : Net A
  dial_net = record { cmd_ch = []; snap_ch = []; err_ch = none; closed = false; ws_open = true }

  -- `Flap`: a full queue drops the new message.
  unfoldable pub queue_flap : Net A → Net A
  queue_flap n =
      if ltb (length n.cmd_ch) cmd_len then record n { cmd_ch = n.cmd_ch ++ flap_msg ∷ [] } else n

  -- A send that does not block.
  unfoldable pub offer : Snapshot A → List (Snapshot A) → List (Snapshot A)
  offer s q = if ltb (length q) ring_len then q ++ s ∷ [] else q

  -- `pushSnap`: a full channel loses its oldest snapshot, and the send is tried once more.
  unfoldable pub push_snap : Snapshot A → Net A → Net A
  unfolding offer
  push_snap s n =
      if ltb (length n.snap_ch) ring_len
      then record n { snap_ch = n.snap_ch ++ s ∷ [] }
      else record n { snap_ch = offer s (drop 1 n.snap_ch) }

  unfoldable pub fail : NetError → Net A → Net A
  fail e n = record n { err_ch = first_error n.err_ch e; ws_open = false }

  -- `writeLoop` takes one message; whether the write succeeds is given.
  unfoldable pub write_step : Bool → Net A → Net A
  unfolding fail
  write_step fine n = elim n.cmd_ch [
    | [] ↦ n
    | msg ∷ rest ↦
        (if fine then record n { cmd_ch = rest } else fail lost (record n { cmd_ch = rest }))
  ]

  unfoldable pub on_snapshot : Option (Snapshot A) → Net A → Net A
  unfolding push_snap
  on_snapshot none n = n
  on_snapshot (some s) n = push_snap s n

  unfoldable pub on_error : Option Text → Net A → Net A
  unfolding fail
  on_error none n = n
  on_error (some msg) n = fail (fatal msg) n

  -- `readLoop`, over what the reads give; a read that fails ends it.
  unfoldable pub read_loop : List (Received A) → Net A → Sess → Net A × Sess
  unfolding on_snapshot on_welcome on_error fail
  read_loop [] n s = (n, s)
  read_loop (broken ∷ rs) n s = (record (fail lost n) { closed = true }, s)
  read_loop (garbled ∷ rs) n s = read_loop rs n s
  read_loop (unknown ∷ rs) n s = read_loop rs n s
  read_loop (snapshot_frame o ∷ rs) n s = read_loop rs (on_snapshot o n) s
  read_loop (welcome_frame o ∷ rs) n s = read_loop rs n (on_welcome o s)
  read_loop (error_frame o ∷ rs) n s = read_loop rs (on_error o n) s
