-- ===== src/Flappy/Examples/Net.antt =====
-- The theorems of the client's connection on a rejection that follows a snapshot.
use hmlb.Prelude.{ℕ, ◌≡◌, refl, Bool, true, false, List, [], ◌∷◌, ◌++◌, some, none, text, leb}
use hmlb.Prelude.All.{All}
use hmlb.Prelude.Int.{ℤ, pos}
use hmlb.Flappy.Client.Game.{Game, Input, new_game, no_sess, fatal, update}
use hmlb.Flappy.Client.Net.{Received, broken, snapshot_frame, error_frame, dial_net, read_loop}
use hmlb.Flappy.Client.Net.Delivery.{last_of, snapshots, read_loop-newest}
use hmlb.Flappy.Client.Net.Rejection.{outputs, IsQuiet, rejected_for_good}
use hmlb.Flappy.Const.{ring_len}
use hmlb.Flappy.Fixed.{fixed}
use hmlb.Flappy.Wire.{Snapshot, waiting}

abbrev printable : ℕ → Bool
printable c = leb 32 c

abbrev a_snap : Snapshot ℤ
a_snap = record {
  now = 5;
  tick = 0;
  st = waiting;
  go_at = 0;
  theme = 0;
  seed = 0;
  dist = pos 0;
  wait = 0;
  birds = [];
  pipes = [];
  res = [];
}

abbrev frames : List (Received ℤ)
frames = snapshot_frame (some a_snap) ∷ error_frame (some (text "no")) ∷ broken ∷ []

abbrev a_game : Game ℤ
a_game = record (new_game (text "ann")) { connected = true }

abbrev an_input : Input ℤ
an_input = record {
  chars = [];
  backspace = false;
  enter = false;
  snaps = a_snap ∷ [];
  err = some (fatal (text "no"));
  flap = true;
  dial = none;
  local = pos 6;
  now = 6;
}

read_loop-newest_example :
    (read_loop frames dial_net no_sess).0.snap_ch ≡ last_of ring_len ([] ++ snapshots frames)
read_loop-newest_example = read_loop-newest frames dial_net no_sess [] refl

rejected_for_good_example :
    ((update printable no_sess an_input a_game).0.fatal_msg ≡ text "no")
    × All IsQuiet (outputs printable no_sess (an_input ∷ an_input ∷ []) a_game)
unfolding new_game read_loop
rejected_for_good_example =
    rejected_for_good printable no_sess frames no_sess an_input (an_input ∷ []) a_game (text "no")
      refl refl refl refl refl refl
