-- ===== src/Flappy/Hub/Leave.antt =====
-- A leave never faults, in any state of the race.
use mathlib.Core.Path.{subst}
use hmlb.Prelude.{
  ℕ, ◌≡◌, refl, sym, ap, ◌∙◌, some, none, nat_eq, text_eq, inl, inr, Bool-cases, nat_beq, length,
  ◌>>=◌,
}
use hmlb.Prelude.Maps.{lookup, delete, lookup-Fresh}
use hmlb.Prelude.Removal.{remove_first}
use hmlb.Flappy.Conn.{Conn}
use hmlb.Flappy.Float.{Float}
use hmlb.Flappy.Hub.Defs.{Session, Hub}
use hmlb.Flappy.Hub.Handlers.{
  idle, departed, leave_countdown, leave_results, leave_in, close_conn, find_session, leave_session,
  handle_leave,
}
use hmlb.Flappy.Hub.Invariant.{IsRace, IsHub}
use hmlb.Flappy.Hub.Wiring.{IsUnused, close_at_total, IsWired-closed}
use hmlb.Flappy.Hub.Sending.{Keeps}
use hmlb.Flappy.Wire.{RaceState, waiting, countdown, racing, finished}
use hmlb.Flappy.Hub.Departure.{order_nil, order_cons, left-IsRoster, left-IsWired, left-IsUnused}
use hmlb.Flappy.Hub.LineUp.{leave_countdown-Keeps}
use hmlb.Flappy.Hub.Flight.{leave_race-Keeps}

module _ {A : Type 0} ⦃f : Float A⦄ (s : Session) (h : Hub A) (ok : IsHub h)
    (here : lookup s.id h.players ≡ some s) where
  leave_results-Keeps :
      IsRace finished h.world h.order h.players
      → h.st ≡ finished
      → Keeps (departed s h) (some (leave_results (departed s h)))
  unfolding leave_results
  leave_results-Keeps (_, (w, known, sound)) e =
      elim (Bool-cases (nat_beq (length (delete s.id h.players)) 0)) [
        | inl empty ↦ (
          idle (departed s h),
          rw (empty, leave_results) refl,
          record {
            roster = (left-IsRoster s h ok here);
            wired = (left-IsWired s h ok here);
            race =
                order_nil (delete s.id h.players) (remove_first s.id h.order)
                  (left-IsRoster s h ok here).keyed empty;
          },
          refl,
          λ c o. o,
        )
        | inr others ↦ (
          departed s h,
          rw (others, leave_results) refl,
          record {
            roster = (left-IsRoster s h ok here);
            wired = (left-IsWired s h ok here);
            race =
                subst (λ st. IsRace st h.world (remove_first s.id h.order) (delete s.id h.players))
                  (sym e)
                  (
                    order_cons (delete s.id h.players) (remove_first s.id h.order)
                        (left-IsRoster s h ok here).keyed others,
                    (w, known, sound),
                  );
          },
          refl,
          λ c o. o,
        )
      ]

  leave_in-Keeps :
      (st : RaceState) (now sent : ℕ)
      → h.st ≡ st
      → IsRace st h.world h.order h.players
      → Keeps (departed s h) (leave_in st now sent s (departed s h))
  unfolding leave_in leave_countdown
  leave_in-Keeps waiting now sent e race =
      cc (sym here ∙ lookup-Fresh s.id h.players (rw (ok.roster.keyed ∙ race) tt))
  leave_in-Keeps countdown now sent e race = (leave_countdown-Keeps s h ok here) sent race e
  leave_in-Keeps racing now sent e race = (leave_race-Keeps s h ok here) now sent race e
  leave_in-Keeps finished now sent e race = leave_results-Keeps race e

  -- The leaver is off the roster and the connection is closed.
  session_leaves :
      (now sent : ℕ)
      → (h' : Hub A) × (leave_session now sent (some s.conn) s h ≡ some h')
        × IsHub h'
        × (h'.players ≡ delete s.id h.players)
  unfolding leave_session close_conn
  session_leaves now sent =
      let (h₁, runs, ok₁, same, stay) = leave_in-Keeps h.st now sent refl ok.race in
      let (conns, closes, keep) =
        close_at_total s.conn h₁.conns (stay s.conn (ok.wired.open_conn s.id s here)).0
          (stay s.conn (ok.wired.open_conn s.id s here)).1 in
      (
        record h₁ { conns = conns },
        rw (runs, leave_session, closes) refl,
        record {
          roster = ok₁.roster;
          wired =
              IsWired-closed s.conn h₁.players h₁.conns conns ok₁.wired
                (rw same (left-IsUnused s h ok here)) keep;
          race = ok₁.race;
        },
        same,
      )

module _ {A : Type 0} ⦃f : Float A⦄ where
  -- `handleLeave` of a player, on the player's own connection, never faults in any state of the
  -- race: it keeps the invariant and takes exactly that player off the roster.
  pub handle_leave_total :
      (now sent id : ℕ) (s : Session) (h : Hub A)
      → IsHub h
      → lookup id h.players ≡ some s
      → (h' : Hub A) × (handle_leave now sent (some s.conn) (some id) h ≡ some h')
        × IsHub h'
        × (h'.players ≡ delete id h.players)
  unfolding handle_leave find_session
  handle_leave_total now sent id s h ok here =
      let own = ok.roster.ids id s here in
      let (h', runs, ok', gone) =
        session_leaves s h ok (ap (λ k. lookup k h.players) own ∙ here) now sent in
      let found : find_session id h ≡ some s = rw (here, find_session) refl in
      (
        h',
        ap (λ o. o >>= λ t. leave_session now sent (some s.conn) t h) found ∙ runs,
        ok',
        gone ∙ ap (λ k. delete k h.players) own,
      )

  -- A connection without a session, refused or silent, is closed, and nothing else happens.
  pub stranger_leaves :
      (now sent c : ℕ) (k : Conn A) (h : Hub A)
      → IsHub h
      → lookup c h.conns ≡ some k
      → IsUnused h.players c
      → (h' : Hub A) × (handle_leave now sent (some c) none h ≡ some h')
        × IsHub h'
        × (h'.players ≡ h.players)
  unfolding handle_leave close_conn
  stranger_leaves now sent c k h ok there unused =
      let (conns, closes, keep) = close_at_total c h.conns k there in
      (
        record h { conns = conns },
        rw (closes, handle_leave) refl,
        record {
          roster = ok.roster;
          wired = IsWired-closed c h.players h.conns conns ok.wired unused keep;
          race = ok.race;
        },
        refl,
      )
