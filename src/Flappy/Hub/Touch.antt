-- ===== src/Flappy/Hub/Touch.antt =====
-- What a handler does to the connections and the players of others: the sends and the race's own
-- handlers leave the players alone and every connection as open as it was.
use hmlb.Prelude.{
  ℕ, suc, ◌+◌, ◌≡◌, refl, sym, ap, ◌∙◌, false, ◌||◌, List, [], ◌∷◌, some, none, nat_eq, inl, inr,
  ◌==◌, Bool-cases, Option-cases, leb, nat_beq, length,
}
use hmlb.Prelude.Options.{>>=-eq-some}
use hmlb.Prelude.Maps.{Map, lookup, insert, lookup-insert}
use hmlb.Flappy.Conn.{Conn, enqueue, enqueue_loop, enqueue_to}
use hmlb.Flappy.Float.{Float}
use hmlb.Flappy.Hub.Defs.{Session, Hub, is_waiting}
use hmlb.Flappy.Hub.Frames.{
  broadcast, maybe_snapshot, make_snapshot, send_each, send_welcome, welcome_msg,
}
use hmlb.Flappy.Hub.Handlers.{
  idle, open_results, ranked, finish_race, place_racer, admit_racer, admit_all, begin_countdown,
  enter_race,
}
use hmlb.Flappy.Hub.Invariant.{IsOpen}
use hmlb.Flappy.Hub.Phase.{some_injective}
use hmlb.Flappy.Rank.{results}
use hmlb.Flappy.Wire.{RaceState, waiting, countdown, racing, finished, Frame, snapshot, welcome}

module _ {A : Type 0} where
  -- No connection appears, and those that were open are.
  abbrev pub Touch : Map ℕ (Conn A) → Map ℕ (Conn A) → Type 0
  Touch m m' =
      ((c : ℕ) → lookup c m ≡ none → lookup c m' ≡ none) × ((c : ℕ) → IsOpen m c → IsOpen m' c)

  pub Touch-refl : (m : Map ℕ (Conn A)) → Touch m m
  Touch-refl m = (λ c e. e, λ c o. o)

  pub Touch-trans : (l m n : Map ℕ (Conn A)) → Touch l m → Touch m n → Touch l n
  Touch-trans l m n p q = (λ c e. q.0 c (p.0 c e), λ c o. q.1 c (p.1 c o))

  enqueue-closed : (b : Frame A) (c d : Conn A) → enqueue b c ≡ some d → d.closed ≡ false
  unfolding enqueue
  enqueue-closed b c d runs = elim (Bool-cases c.closed) [
    | inl shut ↦ cc (rw (shut, enqueue) at runs)
    | inr open_c ↦
        let (q, _, e) =
          >>=-eq-some (enqueue_loop (suc (length c.send)) b c.send) _
            (rw (open_c, enqueue) at runs) in
        ap (λ (x : Conn A). x.closed) (sym (some_injective e)) ∙ open_c
  ]

  pub enqueue_to-Touch :
      (i : ℕ) (b : Frame A) (m m' : Map ℕ (Conn A)) → enqueue_to i b m ≡ some m' → Touch m m'
  unfolding enqueue_to
  enqueue_to-Touch i b m m' runs =
      let (c, found, rest) = >>=-eq-some (lookup i m) _ runs in
      let (d, sends, e) = >>=-eq-some (enqueue b c) _ rest in
      let same : insert i d m ≡ m' = some_injective e in
      rw (← same) (
        (λ j missing. elim (Bool-cases (i == j)) [
          | inl hit ↦
              cc (sym missing ∙ ap (λ x. lookup x m) (sym ((nat_eq.beq_iff i j).0 hit)) ∙ found)
          | inr miss ↦ rw (lookup-insert i j d m, miss) missing
        ]),
        (λ j o. elim (Bool-cases (i == j)) [
          | inl hit ↦ (d, rw (lookup-insert i j d m, hit) refl, enqueue-closed b c d sends)
          | inr miss ↦ (o.0, rw (lookup-insert i j d m, miss) o.1, o.2)
        ]),
      )

module _ {A : Type 0} ⦃f : Float A⦄ where
  pub send_each-Touch :
      (b : Frame A) (ids : List ℕ) (players : Map ℕ Session) (m m' : Map ℕ (Conn A))
      → send_each b ids players m ≡ some m'
      → Touch m m'
  unfolding send_each
  send_each-Touch b [] players m m' runs = rw (← (some_injective runs)) (Touch-refl m)
  send_each-Touch b (id ∷ ids) players m m' runs = elim (Option-cases (lookup id players)) [
    | inl gone ↦ send_each-Touch b ids players m m' (rw (gone, send_each) at runs)
    | inr (s, found) ↦
        let (m₁, sends, rest) =
          >>=-eq-some (enqueue_to s.conn b m) _ (rw (found, send_each) at runs) in
        Touch-trans m m₁ m' (enqueue_to-Touch s.conn b m m₁ sends)
          (send_each-Touch b ids players m₁ m' rest)
  ]

  -- The players as they were, and the connections touched only by sends.
  abbrev pub Same : Hub A → Hub A → Type 0
  Same h h' = (h'.players ≡ h.players) × Touch h.conns h'.conns

  pub Same-refl : (h : Hub A) → Same h h
  Same-refl h = (refl, Touch-refl h.conns)

  pub Same-trans : (g h h' : Hub A) → Same g h → Same h h' → Same g h'
  Same-trans g h h' p q = (q.0 ∙ p.0, Touch-trans g.conns h.conns h'.conns p.1 q.1)

  pub Same-of_eq : (h g h' : Hub A) → Same h g → some g ≡ some h' → Same h h'
  Same-of_eq h g h' p e = let same : g ≡ h' = some_injective e in rw (← same) p

  pub broadcast-Same : (sent : ℕ) (h h' : Hub A) → broadcast sent h ≡ some h' → Same h h'
  unfolding broadcast
  broadcast-Same sent h h' runs =
      elim (Bool-cases (is_waiting h.st || nat_beq (length h.players) 0)) [
        | inl quiet ↦ Same-of_eq h h h' (Same-refl h) (rw (quiet, broadcast) at runs)
        | inr loud ↦
            let (snap, _, sends) =
              >>=-eq-some (make_snapshot sent h) _ (rw (loud, broadcast) at runs) in
            let (conns, each, e) =
              >>=-eq-some (send_each (snapshot snap) h.order h.players h.conns) _ sends in
            Same-of_eq h (record h { last_snap = sent; conns = conns }) h'
              (refl, send_each-Touch (snapshot snap) h.order h.players h.conns conns each) e
      ]

  pub maybe_snapshot-Same :
      (now sent : ℕ) (h h' : Hub A) → maybe_snapshot now sent h ≡ some h' → Same h h'
  unfolding maybe_snapshot
  maybe_snapshot-Same now sent h h' runs =
      elim (Bool-cases (leb (h.last_snap + h.snapshot_every) now)) [
        | inl due ↦ broadcast-Same sent h h' (rw (due, maybe_snapshot) at runs)
        | inr early ↦ Same-of_eq h h h' (Same-refl h) (rw (early, maybe_snapshot) at runs)
      ]

  pub send_welcome-Same :
      (s : Session) (now : ℕ) (h h' : Hub A) → send_welcome s now h ≡ some h' → Same h h'
  unfolding send_welcome
  send_welcome-Same s now h h' runs =
      let b = welcome (welcome_msg s now h) in
      let (conns, sends, e) = >>=-eq-some (enqueue_to s.conn b h.conns) _ runs in
      Same-of_eq h (record h { conns = conns }) h'
        (refl, enqueue_to-Touch s.conn b h.conns conns sends) e

  open_results-Same :
      (ps : Map ℕ Session) (now sent : ℕ) (h h' : Hub A)
      → open_results ps now sent h ≡ some h'
      → Same h h'
  unfolding open_results
  open_results-Same [] now sent h h' runs = Same-of_eq h (idle h) h' (Same-refl h) runs
  open_results-Same (p ∷ ps) now sent h h' runs = broadcast-Same sent _ h' runs

  pub finish_race-Same :
      (now sent : ℕ) (h h' : Hub A) → finish_race now sent h ≡ some h' → Same h h'
  unfolding finish_race
  finish_race-Same now sent h h' runs =
      let (w, _, ranks) = >>=-eq-some h.world _ runs in
      let (res, _, opens) = >>=-eq-some (results w) _ ranks in
      open_results-Same h.players now sent (ranked now res h) h' opens

  place_racer-Same :
      (id : ℕ) (s : Session) (h h' : Hub A) → place_racer id s h ≡ some h' → Same h h'
  unfolding place_racer
  place_racer-Same id s h h' runs =
      let (w, _, e) = >>=-eq-some h.world _ runs in Same-of_eq h _ h' (Same-refl h) e

  admit_all-Same : (ids : List ℕ) (h h' : Hub A) → admit_all ids h ≡ some h' → Same h h'
  unfolding admit_all
  admit_all-Same [] h h' runs = Same-of_eq h h h' (Same-refl h) runs
  admit_all-Same (id ∷ ids) h h' runs =
      let (s, _, rest) = >>=-eq-some (lookup id h.players) _ runs in
      let (h₁, places, more) = >>=-eq-some (place_racer id s h) _ rest in
      Same-trans h h₁ h' (place_racer-Same id s h h₁ places) (admit_all-Same ids h₁ h' more)

  pub begin_countdown-Same : (now : ℕ) (h h' : Hub A) → begin_countdown now h ≡ some h' → Same h h'
  unfolding begin_countdown
  begin_countdown-Same now h h' runs = admit_all-Same h.order _ h' runs

  pub enter_race-Same :
      (st : RaceState) (s : Session) (now : ℕ) (h h' : Hub A)
      → enter_race st s now h ≡ some h'
      → Same h h'
  unfolding enter_race admit_racer
  enter_race-Same waiting s now h h' runs = begin_countdown-Same now h h' runs
  enter_race-Same countdown s now h h' runs = place_racer-Same s.id s h h' runs
  enter_race-Same racing s now h h' runs = Same-of_eq h h h' (Same-refl h) runs
  enter_race-Same finished s now h h' runs = Same-of_eq h h h' (Same-refl h) runs
