-- ===== src/Flappy/Hub/Phase.antt =====
-- Which parts of the hub a handler leaves alone: sending changes neither the state of the race nor the
-- world, and the end of a race is never a race.
use hmlb.Prelude.{
  ℕ, ◌+◌, ◌≡◌, ◌≢◌, ◌⊎◌, refl, sym, ap, ◌∙◌, ◌||◌, [], ◌∷◌, some, nat_eq, text_eq, inl, inr,
  Bool-cases, leb, nat_beq, length, Text,
}
use hmlb.Prelude.Options.{>>=-eq-some}
use hmlb.Prelude.Maps.{Map}
use hmlb.Flappy.Conn.{enqueue_to, close_at}
use hmlb.Flappy.Float.{Float}
use hmlb.Flappy.Hub.Defs.{Session, Hub, is_waiting}
use hmlb.Flappy.Hub.Frames.{
  broadcast, maybe_snapshot, make_snapshot, send_each, reject, send_welcome, welcome_msg,
}
use hmlb.Flappy.Hub.Handlers.{idle, open_results, ranked, finish_race}
use hmlb.Flappy.Rank.{results}
use hmlb.Flappy.Wire.{RaceState, waiting, racing, finished, snapshot, welcome, error}

-- The race is over: its results are shown, or nobody is there to see them.
abbrev pub IsOver : RaceState → Type 0
IsOver st = (st ≡ waiting) ⊎ (st ≡ finished)

pub some_injective : {B : Type 0} {v w : B} → some v ≡ some w → v ≡ w
some_injective e = cc

module _ {A : Type 0} ⦃f : Float A⦄ where
  -- The same state of the race, and the same world.
  abbrev pub InPhase : Hub A → Hub A → Type 0
  InPhase h h' = (h'.st ≡ h.st) × (h'.world ≡ h.world)

  pub InPhase-of_eq : (h g h' : Hub A) → InPhase h g → some g ≡ some h' → InPhase h h'
  InPhase-of_eq h g h' (st, world) e =
      let same : g ≡ h' = some_injective e in
      (ap (λ (x : Hub A). x.st) (sym same) ∙ st, ap (λ (x : Hub A). x.world) (sym same) ∙ world)

  pub broadcast_phase : (sent : ℕ) (h h' : Hub A) → broadcast sent h ≡ some h' → InPhase h h'
  unfolding broadcast
  broadcast_phase sent h h' runs =
      elim (Bool-cases (is_waiting h.st || nat_beq (length h.players) 0)) [
        | inl quiet ↦ InPhase-of_eq h h h' (refl, refl) (rw (quiet, broadcast) at runs)
        | inr loud ↦
            let (snap, _, sends) =
              >>=-eq-some (make_snapshot sent h) _ (rw (loud, broadcast) at runs) in
            let (conns, _, e) =
              >>=-eq-some (send_each (snapshot snap) h.order h.players h.conns) _ sends in
            InPhase-of_eq h (record h { last_snap = sent; conns = conns }) h' (refl, refl) e
      ]

  pub maybe_snapshot_phase :
      (now sent : ℕ) (h h' : Hub A) → maybe_snapshot now sent h ≡ some h' → InPhase h h'
  unfolding maybe_snapshot
  maybe_snapshot_phase now sent h h' runs =
      elim (Bool-cases (leb (h.last_snap + h.snapshot_every) now)) [
        | inl due ↦ broadcast_phase sent h h' (rw (due, maybe_snapshot) at runs)
        | inr early ↦ InPhase-of_eq h h h' (refl, refl) (rw (early, maybe_snapshot) at runs)
      ]

  pub reject_phase : (c : ℕ) (msg : Text) (h h' : Hub A) → reject c msg h ≡ some h' → InPhase h h'
  unfolding reject
  reject_phase c msg h h' runs =
      let (t, _, closes) = >>=-eq-some (enqueue_to c (error msg) h.conns) _ runs in
      let (conns, _, e) = >>=-eq-some (close_at c t) _ closes in
      InPhase-of_eq h (record h { conns = conns }) h' (refl, refl) e

  pub send_welcome_phase :
      (s : Session) (now : ℕ) (h h' : Hub A) → send_welcome s now h ≡ some h' → InPhase h h'
  unfolding send_welcome
  send_welcome_phase s now h h' runs =
      let (conns, _, e) =
        >>=-eq-some (enqueue_to s.conn (welcome (welcome_msg s now h)) h.conns) _ runs in
      InPhase-of_eq h (record h { conns = conns }) h' (refl, refl) e

  open_results-IsOver :
      (ps : Map ℕ Session) (now sent : ℕ) (h h' : Hub A)
      → open_results ps now sent h ≡ some h'
      → IsOver h'.st
  unfolding open_results
  open_results-IsOver [] now sent h h' runs =
      let same : idle h ≡ h' = some_injective runs in inl (ap (λ (x : Hub A). x.st) (sym same))
  open_results-IsOver (p ∷ ps) now sent h h' runs =
      let (st, _) = broadcast_phase sent _ h' runs in inr st

  pub finish_race-IsOver :
      (now sent : ℕ) (h h' : Hub A) → finish_race now sent h ≡ some h' → IsOver h'.st
  unfolding finish_race
  finish_race-IsOver now sent h h' runs =
      let (w, _, ranks) = >>=-eq-some h.world _ runs in
      let (res, _, opens) = >>=-eq-some (results w) _ ranks in
      open_results-IsOver h.players now sent (ranked now res h) h' opens

  pub finish_race-ne-racing :
      (now sent : ℕ) (h h' : Hub A) → finish_race now sent h ≡ some h' → h'.st ≢ racing
  finish_race-ne-racing now sent h h' runs e = elim (finish_race-IsOver now sent h h' runs) [
    | inl idle_now ↦ cc (sym idle_now ∙ e)
    | inr shown ↦ cc (sym shown ∙ e)
  ]
