-- ===== src/Flappy/Client/Game/Retry.antt =====
-- The client's connection: never two at a time, and never given up.
use mathlib.Core.Path.{subst}
use hmlb.Prelude.{
  ◌&&◌, ℕ, ◌+◌, ◌≤◌, ◌≡◌, refl, sym, Bool, true, false, arith, inl, inr, Bool-cases, List, [], ◌∷◌,
  Option, none, some,
}
use hmlb.Prelude.Int.{ℤ, pos}
use hmlb.Flappy.Client.Backoff.{retry_delay, retry_max_delay, retry_delay_lem}
use hmlb.Flappy.Client.Clock.{sample}
use hmlb.Flappy.Client.Ring.{push}
use hmlb.Flappy.Client.Game.{
  Game, Input, Output, Sess, NetError, fatal, lost, fold_snaps, pump_net, schedule_retry, reconnect,
  enter_name, redial, online, next_frame, is_empty, update, quiet,
}
use hmlb.Flappy.Float.{Float}
use hmlb.Flappy.Wire.{Snapshot}

module _ {A : Type 0} ⦃f : Float A⦄ where
  -- A game that has a connection dials no other one.
  abbrev pub IsSingle : Game A → Type 0
  IsSingle g = g.connected && g.dialing ≡ false

  fold_snaps_frame :
      (local : ℤ) (ss : List (Snapshot A)) (g : Game A)
      → ((fold_snaps local ss g).dialing ≡ g.dialing)
        × ((fold_snaps local ss g).connected ≡ g.connected)
  unfolding fold_snaps
  fold_snaps_frame local [] g = (refl, refl)
  fold_snaps_frame local (s ∷ ss) g =
      fold_snaps_frame local ss
        (record g { clk = sample (pos s.now) local g.clk; ring = push s g.ring })

  pump_net-IsSingle : (i : Input A) (g : Game A) → IsSingle g → IsSingle (pump_net i g).0
  unfolding pump_net schedule_retry
  pump_net-IsSingle i g ok = go i.err refl
    where
      go : (o : Option NetError) → i.err ≡ o → IsSingle (pump_net i g).0
      go none e =
          rw (e, pump_net)
            (ground (
              arith,
              (fold_snaps_frame i.local i.snaps g).0,
              (fold_snaps_frame i.local i.snaps g).1,
              ok,
            ))
      go (some (fatal msg)) e = rw (e, pump_net) refl
      go (some lost) e = rw (e, pump_net) refl

  reconnect-IsSingle :
      (sess : Sess) (i : Input A) (g : Game A)
      → g.connected ≡ false
      → IsSingle (reconnect sess i g).0
  unfolding reconnect schedule_retry
  reconnect-IsSingle sess i g off = ground (arith, off)

  enter_name-IsSingle :
      (is_print : ℕ → Bool) (i : Input A) (g : Game A)
      → IsSingle g
      → IsSingle (enter_name is_print i g)
  unfolding enter_name
  enter_name-IsSingle is_print i g ok = ground (arith, ok)

  redial-IsSingle :
      (sess : Sess) (i : Input A) (g : Game A) (out : Output)
      → IsSingle g
      → IsSingle (redial sess i g out).0
  unfolding redial
  redial-IsSingle sess i g out ok = ground (arith, ok, reconnect-IsSingle sess i g)

  online-IsSingle :
      (b : Bool) (sess : Sess) (i : Input A) (g : Game A)
      → g.connected ≡ b
      → IsSingle g
      → IsSingle (online sess i g).0
  unfolding online
  online-IsSingle true sess i g e ok =
      let same : online sess i g ≡ redial sess i (pump_net i g).0 (pump_net i g).1 =
        ground (arith, e) in
      subst (λ (r : Game A × Output). IsSingle r.0) (sym same)
        (redial-IsSingle sess i (pump_net i g).0 (pump_net i g).1 (pump_net-IsSingle i g ok))
  online-IsSingle false sess i g e ok =
      let same : online sess i g ≡ redial sess i g quiet = ground (arith, e) in
      subst (λ (r : Game A × Output). IsSingle r.0) (sym same) (redial-IsSingle sess i g quiet ok)

  -- A frame keeps a game from dialling while it has a connection, whatever arrives in it.
  pub update-IsSingle :
      (is_print : ℕ → Bool) (sess : Sess) (i : Input A) (g : Game A)
      → IsSingle g
      → IsSingle (update is_print sess i g).0
  unfolding update
  update-IsSingle is_print sess i g ok = elim (Bool-cases g.entering) [
    | inl typing ↦
        let same : update is_print sess i g ≡ (enter_name is_print i (next_frame g), quiet) =
          ground (arith, typing) in
        subst (λ (r : Game A × Output). IsSingle r.0) (sym same)
          (enter_name-IsSingle is_print i (next_frame g) ok)
    | inr playing ↦ elim (Bool-cases (is_empty g.fatal_msg)) [
      | inr rejected ↦
          let same : update is_print sess i g ≡ (next_frame g, quiet) =
            ground (arith, playing, rejected) in
          subst (λ (r : Game A × Output). IsSingle r.0) (sym same) ok
      | inl welcome ↦
          let same : update is_print sess i g ≡ online sess i (next_frame g) =
            ground (arith, playing, welcome) in
          subst (λ (r : Game A × Output). IsSingle r.0) (sym same)
            (online-IsSingle g.connected sess i (next_frame g) refl ok)
    ]
  ]

  -- `scheduleRetry` makes the next try due now at the earliest and `retryMaxDelay` later at the
  -- latest, and counts the failure.
  pub schedule_retry_lem :
      (now : ℕ) (g : Game A)
      → (t : ℕ) × ((schedule_retry now g).next_try ≡ some t)
        × (now ≤ t)
        × (t ≤ now + retry_max_delay)
        × ((schedule_retry now g).attempts ≡ g.attempts + 1)
  unfolding schedule_retry
  schedule_retry_lem now g = (
    now + retry_delay (g.attempts + 1),
    refl,
    omega arith,
    omega (arith, (retry_delay_lem (g.attempts + 1)).1),
    refl,
  )
