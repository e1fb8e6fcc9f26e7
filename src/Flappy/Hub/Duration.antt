-- ===== src/Flappy/Hub/Duration.antt =====
-- How long a race lasts, whatever the players do meanwhile.
use hmlb.Prelude.{
  ℕ, ◌+◌, ◌/◌, ◌≡◌, refl, sym, ap, ◌∙◌, Bool, Option, some, none, nat_eq, text_eq, arith, inl, inr,
  Bool-cases, Option-cases, ◌>>=◌, leb, nat_beq, length, Text, text,
}
use hmlb.Prelude.Options.{>>=-eq-some}
use hmlb.Prelude.Maps.{lookup}
use hmlb.Prelude.Words.{u64}
use hmlb.Flappy.Conn.{close_at}
use hmlb.Flappy.Const.{flap_rate_limit}
use hmlb.Flappy.Float.{Float}
use hmlb.Flappy.Hub.Defs.{Session, Hub, unique_name}
use hmlb.Flappy.Hub.Frames.{broadcast, reject, send_welcome}
use hmlb.Flappy.Hub.Handlers.{
  JoinReply, refused, new_session, assign_bird, enrolled, enter_race, admit, handle_join,
  put_session, find_session, pend, counted, count_flap, flap_in_race, flap_in, handle_flap,
  departed, leave_flight, leave_race, leave_in, close_conn, leave_session, handle_leave,
}
use hmlb.Flappy.Hub.Phase.{
  InPhase, some_injective, InPhase-of_eq, broadcast_phase, reject_phase, send_welcome_phase,
  finish_race-ne-racing,
}
use hmlb.Flappy.Name.{validate_name}
use hmlb.Flappy.Wire.{RaceState, waiting, countdown, racing, finished}
use hmlb.Flappy.World.Defs.{World, alive, kill_left, is_racer}

module _ {A : Type 0} ⦃f : Float A⦄ where
  -- The ticks that the race has run.
  abbrev pub race_tick : Option (World A) → ℕ
  race_tick none = 0
  race_tick (some w) = w.tick

  -- No tick has passed: the race is over, or it stands at the same tick.
  abbrev pub SameTick : Hub A → Hub A → Type 0
  SameTick h h' = h'.st ≡ racing → race_tick h'.world ≡ race_tick h.world

  same_phase : (h h' : Hub A) → InPhase h h' → SameTick h h'
  same_phase h h' (st, world) now = ap race_tick world

  kill_left-tick : (id : ℕ) (w : World A) → (kill_left id w).tick ≡ w.tick
  unfolding kill_left
  kill_left-tick id w = elim (Option-cases (lookup id w.birds)) [
    | inl missing ↦ rw (missing, kill_left) refl
    | inr (b, found) ↦ elim (Bool-cases b.dead) [
      | inl dead ↦ rw (found, kill_left, dead) refl
      | inr flies ↦ rw (found, kill_left, flies) refl
    ]
  ]

  pend_phase : (id : ℕ) (w : World A) (h : Hub A) → InPhase h (pend id w h)
  pend_phase id w h = elim (Bool-cases (is_racer id w)) [
    | inl in_race ↦ rw in_race (refl, refl)
    | inr watches ↦ rw watches (refl, refl)
  ]

  put_session_phase : (id : ℕ) (s : Session) (h : Hub A) → InPhase h (put_session id s h)
  put_session_phase id s h = elim (Option-cases (lookup id h.players)) [
    | inl away ↦ rw (away, put_session) (refl, refl)
    | inr (t, here) ↦ rw (here, put_session) (refl, refl)
  ]

  count_flap_phase :
      (id : ℕ) (s : Session) (h h' : Hub A) → count_flap id s h ≡ some h' → InPhase h h'
  unfolding count_flap
  count_flap_phase id s h h' runs = elim (Bool-cases (leb flap_rate_limit s.flap_count)) [
    | inl many ↦
        InPhase-of_eq h (put_session id s h) h' (put_session_phase id s h)
          (rw (many, count_flap) at runs)
    | inr few ↦
        let (w, _, e) = >>=-eq-some h.world _ (rw (few, count_flap) at runs) in
        let put = put_session id (record s { flap_count = s.flap_count + 1 }) h in
        let (st, world) = put_session_phase id (record s { flap_count = s.flap_count + 1 }) h in
        let (st', world') = pend_phase s.id w put in
        InPhase-of_eq h (pend s.id w put) h' (st' ∙ st, world' ∙ world) e
  ]

  flap_in_phase :
      (st : RaceState) (now id : ℕ) (h h' : Hub A) → flap_in st now id h ≡ some h' → InPhase h h'
  unfolding flap_in flap_in_race
  flap_in_phase waiting now id h h' runs = InPhase-of_eq h h h' (refl, refl) runs
  flap_in_phase countdown now id h h' runs = InPhase-of_eq h h h' (refl, refl) runs
  flap_in_phase finished now id h h' runs = InPhase-of_eq h h h' (refl, refl) runs
  flap_in_phase racing now id h h' runs =
      let (s, _, counts) = >>=-eq-some (find_session id h) _ runs in
      count_flap_phase id (counted (now / 1000) s) h h' counts

  pub handle_flap_phase :
      (now : ℕ) (id : Option ℕ) (h h' : Hub A) → handle_flap now id h ≡ some h' → InPhase h h'
  unfolding handle_flap
  handle_flap_phase now none h h' runs = InPhase-of_eq h h h' (refl, refl) runs
  handle_flap_phase now (some id) h h' runs = flap_in_phase h.st now id h h' runs

  close_conn_phase : (c : Option ℕ) (h h' : Hub A) → close_conn c h ≡ some h' → InPhase h h'
  unfolding close_conn
  close_conn_phase none h h' runs = InPhase-of_eq h h h' (refl, refl) runs
  close_conn_phase (some c) h h' runs =
      let (conns, _, e) = >>=-eq-some (close_at c h.conns) _ runs in
      InPhase-of_eq h (record h { conns = conns }) h' (refl, refl) e

  leave_flight_tick :
      (w : World A) (now sent : ℕ) (s : Session) (h h' : Hub A)
      → h.world ≡ some w
      → leave_flight w now sent s h ≡ some h'
      → SameTick h h'
  unfolding leave_flight
  leave_flight_tick w now sent s h h' known runs = elim (Bool-cases (is_racer s.id w)) [
    | inr watches ↦
        same_phase h h' (InPhase-of_eq h h h' (refl, refl) (rw (watches, leave_flight) at runs))
    | inl races ↦
        let w' = kill_left s.id w in
        let h₁ = record h { world = some w' } in
        elim (Bool-cases (nat_beq (alive w') 0)) [
          | inl over ↦ λ still.
              absurd (
                finish_race-ne-racing now sent h₁ h' (rw (races, leave_flight, over) at runs) still)
          | inr on ↦ λ still.
              let (_, world) = broadcast_phase sent h₁ h' (rw (races, leave_flight, on) at runs) in
              ap race_tick world ∙ kill_left-tick s.id w ∙ ap race_tick (sym known)
        ]
  ]

  leave_in_tick :
      (st : RaceState) (now sent : ℕ) (s : Session) (h h' : Hub A)
      → st ≡ racing
      → leave_in st now sent s h ≡ some h'
      → SameTick h h'
  unfolding leave_in leave_race
  leave_in_tick waiting now sent s h h' e runs = cc
  leave_in_tick countdown now sent s h h' e runs = cc
  leave_in_tick finished now sent s h h' e runs = cc
  leave_in_tick racing now sent s h h' e runs =
      let (w, known, leaves) = >>=-eq-some h.world _ runs in
      leave_flight_tick w now sent s h h' known leaves

  pub handle_leave_tick :
      (now sent : ℕ) (c id : Option ℕ) (h h' : Hub A)
      → h.st ≡ racing
      → handle_leave now sent c id h ≡ some h'
      → SameTick h h'
  unfolding handle_leave leave_session
  handle_leave_tick now sent c none h h' e runs = same_phase h h' (close_conn_phase c h h' runs)
  handle_leave_tick now sent c (some id) h h' e runs =
      let (s, _, leaves) = >>=-eq-some (find_session id h) _ runs in
      let (h₁, goes, closes) = >>=-eq-some (leave_in h.st now sent s (departed s h)) _ leaves in
      let (st, world) = close_conn_phase c h₁ h' closes in
      λ still.
        ap race_tick world ∙ leave_in_tick h.st now sent s (departed s h) h₁ e goes (sym st ∙ still)

  assign_bird_phase : (name : Text) (h : Hub A) → InPhase h (assign_bird name h).1
  unfolding assign_bird
  assign_bird_phase name h = ground arith

  enter_racing :
      (st : RaceState) (s : Session) (now : ℕ) (h h' : Hub A)
      → st ≡ racing
      → enter_race st s now h ≡ some h'
      → h'.world ≡ h.world
  unfolding enter_race
  enter_racing waiting s now h h' e runs = cc
  enter_racing countdown s now h h' e runs = cc
  enter_racing finished s now h h' e runs = cc
  enter_racing racing s now h h' e runs = ap (λ (x : Hub A). x.world) (sym (some_injective runs))

  admit_tick :
      (now sent c : ℕ) (name : Text) (h : Hub A) (r : Hub A × JoinReply)
      → h.st ≡ racing
      → admit now sent c name h ≡ some r
      → race_tick r.0.world ≡ race_tick h.world
  unfolding admit enter_race
  admit_tick now sent c name h r e runs =
      let id = u64 (h.next_id + 1) in
      let numbered = record h { next_id = id } in
      let (bird, h₁) = assign_bird name numbered in
      let s = new_session id name bird c in
      let (st₁, world₁) = assign_bird_phase name numbered in
      let (h₂, enters, rest₂) = >>=-eq-some (enter_race h₁.st s now (enrolled s h₁)) _ runs in
      let (h₃, greets, rest₃) = >>=-eq-some (send_welcome s now h₂) _ rest₂ in
      let (h₄, tells, rest₄) = >>=-eq-some (broadcast sent h₃) _ rest₃ in
      let (_, world₃) = send_welcome_phase s now h₂ h₃ greets in
      let (_, world₄) = broadcast_phase sent h₃ h₄ tells in
      let told : h₄ ≡ r.0 = ap (λ (x : Hub A × JoinReply). x.0) (some_injective rest₄) in
      ap (λ (x : Hub A). race_tick x.world) (sym told)
      ∙ ap race_tick
          (world₄ ∙ world₃ ∙ enter_racing h₁.st s now (enrolled s h₁) h₂ (st₁ ∙ e) enters ∙ world₁)

  pub handle_join_tick :
      (is_print : ℕ → Bool) (now sent c : ℕ) (name : Text) (h : Hub A) (r : Hub A × JoinReply)
      → h.st ≡ racing
      → handle_join is_print now sent c name h ≡ some r
      → race_tick r.0.world ≡ race_tick h.world
  unfolding handle_join
  handle_join_tick is_print now sent c name h r e runs =
      elim (Bool-cases (leb h.max_players (length h.players))) [
        | inl full ↦
            rejected (text "server full") (refused (text "server full"))
              (rw (full, handle_join) at runs)
        | inr room ↦ elim (Bool-cases (validate_name is_print name).1) [
          | inr bad ↦
              rejected (text "please pick a name (1-16 characters)") (refused (text "invalid name"))
                (rw (room, handle_join, bad) at runs)
          | inl fine ↦
              let (name', _, admits) =
                >>=-eq-some (unique_name h.names (validate_name is_print name).0) _
                  (rw (room, handle_join, fine) at runs) in
              admit_tick now sent c name' h r e admits
        ]
      ]
    where
      rejected :
          (msg : Text) (reply : JoinReply)
          → (reject c msg h >>= λ h'. some (h', reply)) ≡ some r
          → race_tick r.0.world ≡ race_tick h.world
      rejected msg reply runs =
          let (h₁, rejects, done) = >>=-eq-some (reject c msg h) _ runs in
          let (_, world) = reject_phase c msg h h₁ rejects in
          ap (λ (x : Hub A × JoinReply). race_tick x.0.world) (sym (some_injective done))
          ∙ ap race_tick world
