-- ===== src/Flappy/Client/Net/Rejection.antt =====
-- A rejection by the server ends the game's attempts for good.
use mathlib.Core.Path.{subst}
use hmlb.Prelude.{ℕ, ◌≡◌, refl, sym, ◌∙◌, Bool, true, false, List, [], ◌∷◌, some, Text, arith}
use hmlb.Prelude.All.{All}
use hmlb.Flappy.Client.Game.{
  Game, Input, Output, Sess, fatal, is_empty, fold_snaps, pump_net, online, redial, update, quiet,
  next_frame,
}
use hmlb.Flappy.Client.Net.{Received, dial_net, read_loop}
use hmlb.Flappy.Client.Net.Delivery.{verdict, read_loop-verdict}
use hmlb.Flappy.Client.Clock.{sample}
use hmlb.Flappy.Client.Ring.{push}
use hmlb.Prelude.Int.{ℤ, pos}
use hmlb.Flappy.Wire.{Snapshot}
use hmlb.Flappy.Float.{Float}

-- Nothing is dialled and nothing is sent.
abbrev pub IsQuiet : Output → Type 0
IsQuiet o = o ≡ quiet

module _ {A : Type 0} ⦃f : Float A⦄ (is_print : ℕ → Bool) (sess : Sess) where
  -- What the frames of a game send out.
  unfoldable pub outputs : List (Input A) → Game A → List Output
  outputs [] g = []
  outputs (i ∷ is) g = let (g', out) = update is_print sess i g in out ∷ outputs is g'

  ended_update :
      (i : Input A) (g : Game A)
      → g.entering ≡ false
      → is_empty g.fatal_msg ≡ false
      → update is_print sess i g ≡ (next_frame g, quiet)
  unfolding update
  ended_update i g e f = ground arith

  ended_outputs :
      (is : List (Input A)) (g : Game A)
      → g.entering ≡ false
      → is_empty g.fatal_msg ≡ false
      → All IsQuiet (outputs is g)
  unfolding outputs
  ended_outputs [] g e f = tt
  ended_outputs (i ∷ is) g e f =
      let (g', out) = update is_print sess i g in
      let same : update is_print sess i g ≡ (next_frame g, quiet) = ended_update i g e f in
      subst (λ (r : Game A × Output). IsQuiet r.1 × All IsQuiet (outputs is r.0)) (sym same)
        (refl, ended_outputs is (next_frame g) e f)

  fold_snaps_entering :
      (local : ℤ) (ss : List (Snapshot A)) (g : Game A)
      → (fold_snaps local ss g).entering ≡ g.entering
  unfolding fold_snaps
  fold_snaps_entering local [] g = refl
  fold_snaps_entering local (s ∷ ss) g =
      fold_snaps_entering local ss
        (record g { clk = sample (pos s.now) local g.clk; ring = push s g.ring })

  -- The frame that finds the rejection.
  abbrev refused_game : Text → Input A → Game A → Game A
  refused_game msg i g = record (fold_snaps i.local i.snaps (next_frame g)) {
    connected = false;
    fatal_msg = msg;
  }

  rejected_update :
      (i : Input A) (g : Game A) (msg : Text)
      → g.entering ≡ false
      → is_empty g.fatal_msg ≡ true
      → g.connected ≡ true
      → i.err ≡ some (fatal msg)
      → is_empty msg ≡ false
      → update is_print sess i g ≡ (refused_game msg i g, quiet)
  unfolding update online pump_net redial
  rejected_update i g msg e f up err told = ground arith

  -- A game that has joined and is online, and finds what the reader alone has put into the error
  -- channel, where the first failure that the reader met is the rejection by the server with a
  -- message that is not empty, shows that message in that frame, and dials and sends nothing in
  -- that frame and in all later ones.
  pub rejected_for_good :
      (rs : List (Received A)) (s : Sess) (i : Input A) (is : List (Input A)) (g : Game A)
      (msg : Text)
      → g.entering ≡ false
      → is_empty g.fatal_msg ≡ true
      → g.connected ≡ true
      → verdict rs ≡ some (fatal msg)
      → is_empty msg ≡ false
      → i.err ≡ (read_loop rs dial_net s).0.err_ch
      → ((update is_print sess i g).0.fatal_msg ≡ msg) × All IsQuiet (outputs (i ∷ is) g)
  unfolding outputs
  rejected_for_good rs s i is g msg e f up first told found =
      let err : i.err ≡ some (fatal msg) = found ∙ read_loop-verdict rs dial_net s refl ∙ first in
      let same : update is_print sess i g ≡ (refused_game msg i g, quiet) =
        rejected_update i g msg e f up err told in
      let entering : (refused_game msg i g).entering ≡ false =
        fold_snaps_entering i.local i.snaps (next_frame g) ∙ e in
      subst
        (λ (r : Game A × Output).
          (r.0.fatal_msg ≡ msg) × (IsQuiet r.1 × All IsQuiet (outputs is r.0)))
        (sym same) (refl, (refl, ended_outputs is (refused_game msg i g) entering told))
